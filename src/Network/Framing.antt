-- ===== src/Network/Framing.antt =====
-- securepath/network/encryption/framing.cpp and framing.hpp. The tls_stream below is the sequence of
-- its read completions; posting a handler is a reply.
pub mod Fill
pub mod Deliver
pub mod CutOff
mod Tests
use securepath.Base.{
  ℕ, zero, suc, ◌+◌, ◌-◌, ◌*◌, ◌/◌, ◌%◌, ◌^◌, min, Bool, true, false, List, [], ◌∷◌, ◌++◌, Option,
  none, some, length, take, drop, replicate, get_or, ltb, ◌==◌, if◌then◌else◌, Result, ok, err,
}

abbrev pub max_frame_size : ℕ
max_frame_size = 16 * 1024 * 1024

abbrev pub frame_header_size : ℕ
frame_header_size = 4

-- The payload's size goes out as a uint32_t, most significant octet first.
unfoldable pub encode_frame : List ℕ → List ℕ
encode_frame payload =
    let size = length payload % 2 ^ 32 in
    (size / 2 ^ 24 % 256) ∷ (size / 2 ^ 16 % 256) ∷ (size / 2 ^ 8 % 256) ∷ (size % 256) ∷ payload

-- `(header[0] << 24) | (header[1] << 16) | (header[2] << 8) | header[3]` on octets: no two of them
-- share a bit.
unfoldable pub decode_frame_length : List ℕ → ℕ
decode_frame_length header =
    get_or header 0 0 * 2 ^ 24
    + get_or header 1 0 * 2 ^ 16
    + get_or header 2 0 * 2 ^ 8
    + get_or header 3 0

-- The codes of the module, and one from the stream below.
pub data ErrorCode : Type 0 where
  invalid_data invalid_record operation_in_progress stream_error : ErrorCode

-- async_send_frame: the octets given to the stream, or the code that the handler is posted.
unfoldable pub async_send_frame : List ℕ → Result ErrorCode (List ℕ)
unfolding encode_frame
async_send_frame payload =
    if ltb max_frame_size (length payload) then err invalid_data else ok (encode_frame payload)

pub record FrameReader : Type 0 where
  pub buffer : List ℕ
  pub received : ℕ
  pub expected : ℕ
  pub max_payload : ℕ
  pub header_done : Bool
  pub busy : Bool

-- What a call ends with: a read into the rest of the buffer was started, or a handler is called.
pub data Reply : Type 0 where
  read_more : ℕ → Reply
  complete : Result ErrorCode (List ℕ) → Reply

abbrev pub frame_reader : FrameReader
frame_reader = record {
  buffer = replicate frame_header_size 0;
  received = 0;
  expected = frame_header_size;
  max_payload = max_frame_size;
  header_done = false;
  busy = false;
}

pub set_max_frame_size : FrameReader → ℕ → FrameReader
set_max_frame_size r max = record r { max_payload = max }

-- `vector::resize`
abbrev pub resize : List ℕ → ℕ → List ℕ
resize v n = take n v ++ replicate (n - length v) 0

abbrev pub reading : FrameReader → Reply × FrameReader
reading r = (read_more (r.expected - r.received), r)

unfoldable pub async_receive_frame : FrameReader → Reply × FrameReader
async_receive_frame r =
    if r.busy
    then (complete (err operation_in_progress), r)
    else reading (record r {
      busy = true;
      received = 0;
      expected = frame_header_size;
      header_done = false;
      buffer = resize r.buffer frame_header_size;
    })

-- frame_reader::complete. The buffer is swapped with an empty vector on success.
unfoldable pub completed : FrameReader → Option ErrorCode → Reply × FrameReader
completed r (some ec) = (complete (err ec), record r { busy = false })
completed r none = (complete (ok r.buffer), record r { busy = false; buffer = [] })

-- The header is whole.
unfoldable pub on_header : FrameReader → Reply × FrameReader
unfolding decode_frame_length completed
on_header r =
    let length = decode_frame_length (take frame_header_size r.buffer) in
    let r' = record r {
      header_done = true;
      received = 0;
      expected = length;
      buffer = resize r.buffer length;
    } in
    if ltb r.max_payload length
    then completed r (some invalid_record)
    else if length == 0
    then completed r' none
    else reading r'

-- The part that was expected is whole.
unfoldable pub on_filled : FrameReader → Reply × FrameReader
unfolding on_header completed
on_filled r = if r.header_done then completed r none else on_header r

-- The octets that the stream wrote into the buffer, from `received` on.
abbrev pub write_at : List ℕ → ℕ → List ℕ → List ℕ
write_at buffer at octets = take at buffer ++ (octets ++ drop (at + length octets) buffer)

unfoldable pub on_read : FrameReader → Result ErrorCode (List ℕ) → Reply × FrameReader
unfolding on_filled completed
on_read r (err ec) = completed r (some ec)
on_read r (ok octets) =
    let r' = record r {
      buffer = write_at r.buffer r.received octets;
      received = r.received + length octets;
    } in
    if ltb r'.received r'.expected then reading r' else on_filled r'

-- async_read_some on a stream that still carries `wire`: it completes with at least one octet, at
-- most as many as have come (`suc come` here) and as the target holds, or fails at the end.
unfoldable pub read_some : ℕ → ℕ → List ℕ → Result ErrorCode (List ℕ)
read_some target come [] = err stream_error
read_some target come (b ∷ wire) = ok (take (min target (suc come)) (b ∷ wire))

taken : Result ErrorCode (List ℕ) → ℕ
taken (ok octets) = length octets
taken (err ec) = 0

-- The completions of the reads, one for each entry of `arrivals`, up to the handler's call; `none`
-- where the arrivals end first.
unfoldable pub run :
    List ℕ
    → Reply × FrameReader
    → List ℕ
    → Option (Result ErrorCode (List ℕ)) × FrameReader × List ℕ
unfolding on_read read_some taken
run arrivals (complete r, reader) wire = (some r, reader, wire)
run [] (read_more n, reader) wire = (none, reader, wire)
run (come ∷ arrivals) (read_more n, reader) wire =
    let octets = read_some n come wire in
    run arrivals (on_read reader octets) (drop (taken octets) wire)

-- One whole receive.
unfoldable pub receive :
    List ℕ → FrameReader → List ℕ → Option (Result ErrorCode (List ℕ)) × FrameReader × List ℕ
unfolding run async_receive_frame
receive arrivals reader wire = run arrivals (async_receive_frame reader) wire
