-- ===== src/Der/Decoder/Sequences.antt =====
-- Sequences written by `start_sequence` and `end_sequence` of the encoder, and read back.
use securepath.Base.{
  ℕ, suc, ◌^◌, ◌≤◌, ◌<◌, ◌≡◌, refl, ap, ◌∙◌, List, ◌∷◌, ◌++◌, Option, arith, length, ok, ◌>>=◌,
  Result,
}
use securepath.Der.Types.{Error, TagInfo, max_constructed_size}
use securepath.Der.Encoder.{Encoder, write, start_sequence, end_sequence}
use securepath.Der.Encoder.Output.{IsAtEnd, write-write, header_octets, encode_header_output}
use securepath.Der.Decoder.{M}
use securepath.Der.Decoder.Nested.{
  Element, in_sequence, sequence_header, HasSequenceTag, sequence_Element,
}

-- A sequence of what `enc` writes.
unfoldable pub out_sequence :
    Option TagInfo → (Encoder → Result Error Encoder) → Encoder → Result Error Encoder
out_sequence t enc e = do e' ← enc (start_sequence e t); end_sequence e'

-- `bs` is written whole by `enc`, wherever the output stands.
abbrev pub Writes : (Encoder → Result Error Encoder) → List ℕ → Type 0
Writes enc bs = (e : Encoder) → IsAtEnd e → enc e ≡ ok (write e bs)

pub Writes-then :
    (f g : Encoder → Result Error Encoder) (bs cs : List ℕ)
    → Writes f bs
    → Writes g cs
    → ((e : Encoder) → IsAtEnd e → IsAtEnd (write e bs))
    → Writes (λ e. f e >>= g) (bs ++ cs)
Writes-then f g bs cs wf wg stays e start =
    rw (wf e start) (wg (write e bs) (stays e start) ∙ ap ok (write-write e bs cs start))

-- The content of the layer is what was written since it was opened.
start_written :
    (e : Encoder) (t : Option TagInfo) (bs : List ℕ)
    → write (start_sequence e t) bs
      ≡ record e { layers = record { header = sequence_header t 0; content = bs } ∷ e.layers }
unfolding start_sequence write
start_written e t bs = refl

sequence_Writes :
    (t : Option TagInfo) (enc : Encoder → Result Error Encoder) (bs : List ℕ)
    → HasSequenceTag t
    → length bs < 2 ^ 64
    → Writes enc bs
    → Writes (out_sequence t enc) (header_octets (sequence_header t (length bs)) ++ bs)
unfolding out_sequence start_sequence end_sequence
sequence_Writes t enc bs tagged short inner e start =
    rw
      (
        inner (start_sequence e t) start,
        start_written e t bs,
        encode_header_output e (sequence_header t (length bs)) start tagged.1 short,
      )
      (ap ok (write-write e (header_octets (sequence_header t (length bs))) bs start))

-- Whatever `enc` writes between the start and the end of a sequence is read back as a sequence, to the
-- same value and past its end, where the reader of the content knows only a front of it: `extra` is
-- passed over. The content is within `max_constructed_size`, the tag fits the header, and one level
-- more than the content needs is free.
pub sequence_round_trip :
    {A : Type 0} {dec : M A} {a : A} (t : Option TagInfo) (depth : ℕ)
    (enc : Encoder → Result Error Encoder) (bs extra : List ℕ)
    → HasSequenceTag t
    → length (bs ++ extra) ≤ max_constructed_size
    → Writes enc (bs ++ extra)
    → Element depth dec bs a
    → (all : List ℕ) × Writes (out_sequence t enc) all
      × Element (suc depth) (in_sequence t dec) all a
sequence_round_trip t depth enc bs extra tagged short written read = (
  header_octets (sequence_header t (length (bs ++ extra))) ++ (bs ++ extra),
  sequence_Writes t enc (bs ++ extra) tagged (omega (arith, short)) written,
  sequence_Element t depth bs extra tagged short read,
)
