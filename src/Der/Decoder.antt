-- ===== src/Der/Decoder.antt =====
-- securepath/serialisation/codec/asn_der/asn_der_decoder.hpp over an octet_span_istream. Times, reals
-- and the log lines are left out.
pub mod Elements
pub mod Gives
mod TagLoop
pub mod Finds
pub mod Headers
pub mod Values
pub mod Nested
pub mod Sequences
use securepath.Base.{
  ℕ, zero, suc, ◌+◌, ◌-◌, ◌*◌, ◌/◌, ◌%◌, ◌^◌, Bool, true, false, ◌&&◌, ◌||◌, not, List, [], ◌∷◌,
  Option, none, some, length, ltb, leb, ◌==◌, if◌then◌else◌, Result, ok, err, get_or,
}
use securepath.Base.Int.{ℤ, pos, negsuc}
use securepath.Der.Types.{
  Error, element_not_present, tag_too_long, illegal_length, structure_too_big, integer_too_wide,
  zero_length_integer, sign_mismatch, nesting_too_deep, not_constructed, trailing_outside_sequence,
  AsnHeader, TagInfo, get_or_class, get_asn_class, get_tag, context_specific_c, boolean_tag,
  integer_tag, octet_string_tag, t61string_tag, sequence_tag, max_structure_size,
  max_constructed_size, max_structure_depth,
}
use securepath.Der.Octets.{decode_from_octets, decode_integer, is_negative}
use securepath.Der.Stream.{BufferedStream, Outcome}
use securepath.Der.Stream

-- The ends of the open sequences, innermost first, as positions in the stream.
pub record Decoder : Type 0 where
  pub s : BufferedStream
  pub seq_pos : List ℕ

-- A method leaves the decoder changed also where it throws.
abbrev pub M : Type 0 → Type 0
M A = Decoder → Result Error A × Decoder

abbrev pub pure : {A : Type 0} → A → M A
pure a d = (ok a, d)

abbrev pub throw : {A : Type 0} → Error → M A
throw e d = (err e, d)

abbrev pub then_do :
    {A B : Type 0} → (A → M B) → Result Error A × Decoder → Result Error B × Decoder
then_do f (ok a, d) = f a d
then_do f (err e, d) = (err e, d)

infixl 5 ◌>>=◌
infixl 5 ◌>>◌
-- The next method runs on the decoder that the first one left, unless that one threw.
abbrev pub ◌>>=◌ : {A B : Type 0} → M A → (A → M B) → M B
first >>= next = λ d. then_do next (first d)

abbrev pub ◌>>◌ : {A : Type 0} → M (Unit {0}) → M A → M A
first >> second = λ d. then_do (λ done. second) (first d)

abbrev pub require : Bool → Error → M (Unit {0})
require true e = pure tt
require false e = throw e

abbrev pub with_stream :
    {A : Type 0} → Decoder → Result Error A × BufferedStream → Result Error A × Decoder
with_stream d (r, s) = (r, record d { s = s })

unfoldable pub read : ℕ → M (List ℕ)
read size d = with_stream d (Stream.read d.s size)

-- `s_.read()`: one octet.
unfoldable pub read_octet : M ℕ
read_octet = do octets ← read 1; pure (get_or octets 0 0)

-- The loop of `decode_long_tag` before its octet `b`; `left` rounds remain of the nine that fit.
unfoldable pub long_tag_loop : ℕ → ℕ → ℕ → M ℕ
long_tag_loop zero ret b =
    if b / 128 % 2 == 1 then throw tag_too_long else pure (ret * 2 ^ 7 % 2 ^ 64 + b)
long_tag_loop (suc left) ret b =
    let more : M ℕ = (do
      next ← read_octet
      long_tag_loop left (ret * 2 ^ 7 % 2 ^ 64 + b % 128) next) in
    if b / 128 % 2 == 1 then more else pure (ret * 2 ^ 7 % 2 ^ 64 + b)

-- The loop throws in the round with `i+1 == sizeof(uint64_t)*8/7+1`.
unfoldable pub decode_long_tag : M ℕ
decode_long_tag = do b ← read_octet; long_tag_loop (8 * 8 / 7) 0 b

unfoldable pub decode_tag_number : ℕ → M ℕ
decode_tag_number b = if b % 32 == 31 then decode_long_tag else pure (b % 32)

unfoldable pub decode_long_length : ℕ → M ℕ
decode_long_length b = do
  require (not (ltb 8 (b % 128) || (b % 128 == 0))) illegal_length
  octets ← read (b % 128)
  pure (decode_from_octets 64 octets)

unfoldable pub decode_length : M ℕ
decode_length = do b ← read_octet; if b / 128 % 2 == 1 then decode_long_length b else pure (b % 128)

unfoldable pub decode_tag : M AsnHeader
decode_tag = do
  b ← read_octet
  tag ← decode_tag_number b
  pure (record { asn_class = b / 2 ^ 6; tag = tag; length = 0; is_constructed = b / 32 % 2 == 1 })

abbrev pub max_size : Bool → ℕ
max_size is_constructed = if is_constructed then max_constructed_size else max_structure_size

unfoldable pub decode_any_header : M AsnHeader
decode_any_header = do
  h ← decode_tag
  length ← decode_length
  require (leb length (max_size h.is_constructed)) structure_too_big
  pure (record h { length = length })

-- `seq_pos_.empty() ? false : seq_pos_.front() <= s_.pos()`
pub ended_at : List ℕ → ℕ → Bool
ended_at [] here = false
ended_at (p ∷ ps) here = leb p here

unfoldable pub is_end_of_sequence : Decoder → Bool
unfolding ended_at
is_end_of_sequence d = ended_at d.seq_pos (Stream.position d.s)

-- Outside any sequence the clean end of the stream counts as absence.
pub nothing_left : List ℕ → M Bool
nothing_left [] d =
    let (some_octet, s) = Stream.readable_bytes d.s 1 in (ok (not some_octet), record d { s = s })
nothing_left (p ∷ ps) d = (ok false, d)

unfoldable pub decode_header : ℕ → ℕ → M AsnHeader
unfolding nothing_left
decode_header asn_class tag = do
  λ d. require (not (is_end_of_sequence d)) element_not_present d
  absent ← λ d. nothing_left d.seq_pos d
  require (not absent) element_not_present
  h ← decode_any_header
  require (h.asn_class == asn_class && (h.tag == tag)) element_not_present
  pure h
