-- ===== src/Network/Framing/Deliver.antt =====
-- What a receive ends with, for a frame that is allowed and for one that is too large.
use securepath.Base.{
  ℕ, ◌+◌, ◌-◌, ◌/◌, ◌%◌, ◌^◌, ◌≤◌, ◌<◌, ◌≡◌, refl, ap, ◌∙◌, true, false, List, [], ◌∷◌, ◌++◌,
  Option, none, some, arith, length, take, replicate, ltb, ◌==◌, if◌then◌else◌, Result, ok, err,
  ==_iff, map, append_assoc, length-append, length-take, length-replicate, Bool-cases, inl, inr,
}
use native.Mathlib.Nat.{zero-add}
use securepath.Network.Framing.{
  FrameReader, ErrorCode, invalid_record, encode_frame, decode_frame_length, frame_header_size,
  resize, reading, on_filled, on_header, completed, async_receive_frame, run, receive,
}
use securepath.Network.Framing.Fill.{fill, filled_with}

abbrev pub frame_header : ℕ → List ℕ
frame_header n =
    let size = n % 2 ^ 32 in
    (size / 2 ^ 24 % 256) ∷ (size / 2 ^ 16 % 256) ∷ (size / 2 ^ 8 % 256) ∷ (size % 256) ∷ []

frame_header_lem : (n : ℕ) → n < 2 ^ 32 → decode_frame_length (frame_header n) ≡ n
unfolding decode_frame_length
frame_header_lem n h = omega arith

pub encode_frame_lem :
    (payload rest : List ℕ)
    → encode_frame payload ++ rest ≡ frame_header (length payload) ++ (payload ++ rest)
unfolding encode_frame
encode_frame_lem payload rest = refl

-- Reading the length of a frame's header gives the payload's length, if that fits four octets.
pub decode_frame_length-encode_frame :
    (payload : List ℕ)
    → length payload < 2 ^ 32
    → decode_frame_length (take frame_header_size (encode_frame payload)) ≡ length payload
unfolding encode_frame
decode_frame_length-encode_frame payload h = frame_header_lem (length payload) h

length-resize : (v : List ℕ) (n : ℕ) → length (resize v n) ≡ n
length-resize v n = omega (
  arith,
  length-append (take n v) (replicate (n - length v) 0),
  length-take n v,
  length-replicate {A = ℕ} (n - length v) 0,
)

abbrev pub at_header : FrameReader → FrameReader
at_header r = record r {
  busy = true;
  received = 0;
  expected = frame_header_size;
  header_done = false;
  buffer = resize r.buffer frame_header_size;
}

-- A receive on an idle reader takes the header first.
pub header_taken :
    (arrivals : List ℕ) (r : FrameReader) (n : ℕ) (rest : List ℕ)
    → r.busy ≡ false
    → 4 ≤ length arrivals
    → (more : List ℕ) × (length arrivals ≤ length more + 4)
      × (receive arrivals r (frame_header n ++ rest)
          ≡ run more (on_header (filled_with (at_header r) (frame_header n))) rest)
unfolding receive async_receive_frame on_filled
header_taken arrivals r n rest idle long =
    let size : length (frame_header n) ≡ 4 = refl in
    let (more, left, e) =
      fill arrivals (at_header r) (frame_header n) rest
        (record { some_octet = omega arith; count = refl; space = length-resize r.buffer 4 })
        long in
    (more, left, rw idle e)

-- The reader after a payload was handed over.
abbrev pub handed_over : FrameReader → List ℕ → FrameReader
handed_over r payload = record {
  buffer = [];
  received = length payload;
  expected = length payload;
  max_payload = r.max_payload;
  header_done = true;
  busy = false;
}

is_empty : (xs : List ℕ) → length xs ≡ 0 → xs ≡ []
is_empty [] h = refl
is_empty (x ∷ xs) h = absurd (omega arith)

-- The reader with the whole header, and where it starts on the payload.
abbrev in_header : FrameReader → List ℕ → FrameReader
in_header r payload = filled_with (at_header r) (frame_header (length payload))

abbrev pub at_payload : FrameReader → List ℕ → FrameReader
at_payload r payload = record (in_header r payload) {
  header_done = true;
  received = 0;
  expected = length payload;
  buffer = resize (frame_header (length payload)) (length payload);
}

module _ (r : FrameReader) (payload : List ℕ) (short : length payload < 2 ^ 32) where
  pub header_accepted :
      length payload ≤ r.max_payload
      → on_header (in_header r payload) ≡ (
          if length payload == 0
          then completed (at_payload r payload) none
          else reading (at_payload r payload))
  unfolding on_header
  header_accepted allowed =
      let fits : ltb r.max_payload (length payload) ≡ false = ground arith in
      rw (frame_header_lem (length payload) short, fits)

  -- The payload is read into the buffer and handed over.
  payload_taken :
      (arrivals rest : List ℕ)
      → length payload ≤ length arrivals
      → (more : List ℕ) × (length arrivals ≤ length more + length payload)
        × (run arrivals
              (if length payload == 0
                then completed (at_payload r payload) none
                else reading (at_payload r payload))
              (payload ++ rest)
            ≡ (some (ok payload), handed_over r payload, rest))
  unfolding run completed on_filled
  payload_taken arrivals rest long = elim (Bool-cases (length payload == 0)) [
    | inl none_left ↦
        let e : length payload ≡ 0 = (==_iff (length payload) 0).0 none_left in
        (arrivals, omega arith, rw (none_left, is_empty payload e) refl)
    | inr some_left ↦
        let lo : 0 < length payload = ground arith in
        let (more, left, e) =
          fill arrivals (at_payload r payload) payload rest
            (record {
              some_octet = lo;
              count = omega arith;
              space = length-resize (frame_header (length payload)) (length payload);
            })
            long in
        (more, left, rw some_left (e ∙ ap counted (zero-add (length payload))))
  ]
    where
      counted : ℕ → Option (Result ErrorCode (List ℕ)) × FrameReader × List ℕ
      counted n = (some (ok payload), record (handed_over r payload) { received = n }, rest)

module _ (r : FrameReader) (idle : r.busy ≡ false) (narrow : r.max_payload < 2 ^ 32) where
  -- A receive on an idle reader delivers the payload of the frame that comes next, however its
  -- octets arrive, and leaves what follows the frame on the stream. Each octet may be a read of its
  -- own; the reader is idle again.
  pub receive-encode_frame :
      (arrivals payload rest : List ℕ)
      → length payload ≤ r.max_payload
      → 4 + length payload ≤ length arrivals
      → receive arrivals r (encode_frame payload ++ rest)
        ≡ (some (ok payload), handed_over r payload, rest)
  receive-encode_frame arrivals payload rest allowed long =
      let short : length payload < 2 ^ 32 = omega arith in
      let (more, left, e) =
        header_taken arrivals r (length payload) (payload ++ rest) idle (omega arith) in
      let (_, _, e') = payload_taken r payload short more rest (omega arith) in
      ap (receive arrivals r) (encode_frame_lem payload rest)
      ∙ e
      ∙ ap (λ t. run more t (payload ++ rest)) (header_accepted r payload short allowed)
      ∙ e'

  -- A frame above the reader's limit is refused after its header: nothing more is read, no larger
  -- buffer is made, and the reader is idle again.
  pub receive_too_large :
      (arrivals payload rest : List ℕ)
      → length payload < 2 ^ 32
      → r.max_payload < length payload
      → 4 ≤ length arrivals
      → (r' : FrameReader) × (receive arrivals r (encode_frame payload ++ rest)
          ≡ (some (err invalid_record), r', payload ++ rest))
        × (length r'.buffer ≡ frame_header_size)
        × (r'.busy ≡ false)
  unfolding on_header run completed
  receive_too_large arrivals payload rest short large long =
      let (more, left, e) = header_taken arrivals r (length payload) (payload ++ rest) idle long in
      let refused : ltb r.max_payload (length payload) ≡ true = ground arith in
      (
        record (in_header r payload) { busy = false },
        ap (receive arrivals r) (encode_frame_lem payload rest)
            ∙ e
            ∙ rw (frame_header_lem (length payload) short, refused) refl,
        refl,
        refl,
      )

-- One receive after the other, each with the arrivals of its own reads.
unfoldable pub receive_each :
    List (List ℕ)
    → FrameReader
    → List ℕ
    → List (Option (Result ErrorCode (List ℕ))) × FrameReader × List ℕ
receive_each [] r wire = ([], r, wire)
receive_each (arrivals ∷ more) r wire =
    let (result, r', wire') = receive arrivals r wire in
    let (results, last, left) = receive_each more r' wire' in (result ∷ results, last, left)

unfoldable pub encode_frames : List (List ℕ) → List ℕ
encode_frames [] = []
encode_frames (p ∷ ps) = encode_frame p ++ encode_frames ps

-- Each payload is allowed and has arrivals enough.
abbrev pub AllArrive : ℕ → List (List ℕ) → List (List ℕ) → Type 0
AllArrive max [] schedule = schedule ≡ []
AllArrive max (p ∷ ps) [] = ⊥
AllArrive max (p ∷ ps) (arrivals ∷ more) =
    (length p ≤ max) × (4 + length p ≤ length arrivals) × AllArrive max ps more

-- A sequence of frames is delivered message by message, in order and with nothing left over,
-- whatever the sizes of the single reads.
pub receive_each-encode_frames :
    (payloads schedule : List (List ℕ)) (r : FrameReader) (rest : List ℕ)
    → r.busy ≡ false
    → r.max_payload < 2 ^ 32
    → AllArrive r.max_payload payloads schedule
    → (r' : FrameReader) × (receive_each schedule r (encode_frames payloads ++ rest)
        ≡ (map (λ p. some (ok p)) payloads, r', rest))
unfolding receive_each encode_frames
receive_each-encode_frames [] schedule r rest idle narrow a = (r, ap (λ s. receive_each s r rest) a)
receive_each-encode_frames (p ∷ ps) [] r rest idle narrow a = absurd a
receive_each-encode_frames (p ∷ ps) (arrivals ∷ more) r rest idle narrow (allowed, long, a) =
    let (r', e) = receive_each-encode_frames ps more (handed_over r p) rest refl narrow a in
    let first =
      ap (receive arrivals r) (append_assoc (encode_frame p) (encode_frames ps) rest)
      ∙ receive-encode_frame r idle narrow arrivals p (encode_frames ps ++ rest) allowed long in
    (r', rw (first, e) refl)
