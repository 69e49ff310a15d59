-- ===== src/Der/Stream.antt =====
-- securepath/serialisation/octet_vector_stream.cpp (octet_span_istream) and
-- codec/asn_der/buffered_stream.hpp: reading octets with look-ahead.
pub mod Window
pub mod Reads
use securepath.Base.{
  ℕ, zero, suc, ◌+◌, ◌-◌, ◌≤◌, ◌<◌, Bool, true, false, ◌&&◌, not, List, [], ◌∷◌, ◌++◌, length, take,
  drop, min, ltb, leb, ◌==◌, if◌then◌else◌, Result, ok, err,
}
use securepath.Der.Types.{Error, end_of_stream}

-- octet_span_istream: the octets not read yet. A read of too many takes them all and fails.
pub record SpanStream : Type 0 where
  pub rest : List ℕ

pub span_read : SpanStream → ℕ → Bool × List ℕ × SpanStream
span_read s size =
    if leb size (length s.rest)
    then (true, take size s.rest, record { rest = drop size s.rest })
    else (false, [], record { rest = [] })

pub record BufferedStream : Type 0 where
  pub stream : SpanStream
  pub buffer : List ℕ
  pub look_ahead_pos : ℕ
  pub real_pos : ℕ
  pub peek_count : ℕ

-- A method returns its result, or what it threw, with the stream as it is left.
abbrev pub Outcome : Type 0 → Type 0 → Type 0
Outcome S A = Result Error A × S

-- `rs` octets are copied from the buffer; once it is used up and nobody peeks, it is thrown away.
pub buffer_took : BufferedStream → ℕ → List ℕ × BufferedStream
buffer_took b rs =
    let octets = take rs (drop b.look_ahead_pos b.buffer) in
    let look = b.look_ahead_pos + rs in
    if b.peek_count == 0 && (look == length b.buffer)
    then (octets, record b { real_pos = b.real_pos + look; look_ahead_pos = 0; buffer = [] })
    else (octets, record b { look_ahead_pos = look })

-- The first part of `read`: what the buffer still has, up to `size` octets.
pub read_from_buffer : BufferedStream → ℕ → List ℕ × BufferedStream
unfolding buffer_took
read_from_buffer b size =
    if ltb b.look_ahead_pos (length b.buffer)
    then buffer_took b (min size (length b.buffer - b.look_ahead_pos))
    else ([], b)

-- What `read_from_stream` does once the stream has given the octets.
pub stream_gave : BufferedStream → ℕ → Bool × List ℕ × SpanStream → Outcome BufferedStream (List ℕ)
stream_gave b size (false, octets, left) = (err end_of_stream, record b { stream = left })
stream_gave b size (true, octets, left) =
    if b.peek_count == 0
    then (ok octets, record b { stream = left; real_pos = b.real_pos + size })
    else (
      ok octets,
      record b {
        stream = left;
        buffer = b.buffer ++ octets;
        look_ahead_pos = b.look_ahead_pos + size;
      },
    )

pub read_from_stream : BufferedStream → ℕ → Outcome BufferedStream (List ℕ)
unfolding stream_gave span_read
read_from_stream b size = stream_gave b size (span_read b.stream size)

pub prepend : List ℕ → Outcome BufferedStream (List ℕ) → Outcome BufferedStream (List ℕ)
prepend front (ok back, b) = (ok (front ++ back), b)
prepend front (err e, b) = (err e, b)

-- Both parts of `read`: the stream is asked only for what the buffer did not have.
pub read_rest : ℕ → List ℕ × BufferedStream → Outcome BufferedStream (List ℕ)
unfolding prepend
read_rest size (octets, b) =
    if length octets == size
    then (ok octets, b)
    else prepend octets (read_from_stream b (size - length octets))

unfoldable pub read : BufferedStream → ℕ → Outcome BufferedStream (List ℕ)
unfolding read_from_buffer read_rest read_from_stream
read b size = read_rest size (read_from_buffer b size)

pub filled : BufferedStream → Bool × List ℕ × SpanStream → Bool × BufferedStream
filled b (false, octets, left) = (false, record b { stream = left })
filled b (true, octets, left) = (true, record b { stream = left; buffer = b.buffer ++ octets })

pub readable_bytes : BufferedStream → ℕ → Bool × BufferedStream
unfolding span_read filled
readable_bytes b size =
    let buffered = length b.buffer - b.look_ahead_pos in
    if leb size buffered then (true, b) else filled b (span_read b.stream (size - buffered))

pub is_peeking : BufferedStream → Bool
is_peeking b = ltb 0 b.peek_count

unfoldable pub start_peek : BufferedStream → ℕ × BufferedStream
start_peek b = (b.look_ahead_pos, record b { peek_count = b.peek_count + 1 })

-- The assertion `peek_count_` is the caller's: each end belongs to a start.
unfoldable pub end_peek : BufferedStream → ℕ → Bool → BufferedStream
end_peek b pos commit =
    if commit
    then record b { peek_count = b.peek_count - 1 }
    else record b { peek_count = b.peek_count - 1; look_ahead_pos = pos }

pub position : BufferedStream → ℕ
position b = b.real_pos + b.look_ahead_pos
