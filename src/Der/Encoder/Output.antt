-- ===== src/Der/Encoder/Output.antt =====
-- What the encoder writes, as octets appended to its output.
use securepath.Base.{
  ℕ, zero, suc, ◌+◌, ◌-◌, ◌/◌, ◌%◌, ◌^◌, ◌<◌, ◌≡◌, refl, ap, ◌∙◌, bit_or, false, List, [], ◌∷◌,
  ◌++◌, arith, length, ltb, ◌==◌, if◌then◌else◌, ok, length-append, append_assoc, append-nil,
  take_all, drop_all, holds_below, Bool-cases, inl, inr, holds_below_at, ==_iff,
}
use securepath.Base.Bits.{bit_or_128}
use securepath.Der.Types.{AsnHeader}
use securepath.Der.Octets.{highest_bit_block, encode_to_octets, octet_loop}
use securepath.Der.Octets.Length.{groups-le, octets-le}
use securepath.Der.Octets.Encode.{encode_to_octets_lem, encode_unsigned}
use securepath.Der.Octets.Digits.{
  digits, digits_down, digits_down-digits, bits_from_position_lem, length-digits,
}
use securepath.Der.Encoder.{
  OctetVectorOstream, Encoder, SeqStruct, ostream_write, write, tag_first_byte,
  encode_tag_first_byte, clear_last, encode_long_tag, encode_tag, encode_long_length, encode_length,
  encode_header,
}

-- The output stands at its end, as `asn_der_serialise` starts it and as each write leaves it.
abbrev pub IsAtEnd : Encoder → Type 0
IsAtEnd e = e.stream.write_pos ≡ length e.stream.vec

ostream_append :
    (s : OctetVectorOstream) (b : List ℕ)
    → s.write_pos ≡ length s.vec
    → ostream_write s b ≡ record { vec = s.vec ++ b; write_pos = s.write_pos + length b }
unfolding ostream_write
ostream_append s [] h = ground (arith, append-nil s.vec)
ostream_append s (b ∷ bs) h =
    let none : s.write_pos - length s.vec ≡ 0 = omega arith in
    let front = take_all s.write_pos s.vec (omega arith) in
    let back = drop_all s.vec (s.write_pos + length (b ∷ bs)) (omega arith) in
    simp (none, append-nil, front, back)

-- Writes one after the other are one write.
pub write-write : (e : Encoder) (a b : List ℕ) → IsAtEnd e → write (write e a) b ≡ write e (a ++ b)
unfolding write
write-write e a b h = go e.stream e.layers h
  where
    go :
        (s : OctetVectorOstream) (ls : List SeqStruct)
        → s.write_pos ≡ length s.vec
        → write (write (record { stream = s; layers = ls }) a) b
          ≡ write (record { stream = s; layers = ls }) (a ++ b)
    go s [] h =
        let s' : OctetVectorOstream = record {
          vec = s.vec ++ a;
          write_pos = s.write_pos + length a;
        } in
        let end : s'.write_pos ≡ length s'.vec = omega (arith, length-append s.vec a) in
        rw (ostream_append s a h, ostream_append s (a ++ b) h, ostream_append s' b end)
          (ground (arith, append_assoc s.vec a b, length-append a b))
    go s (l ∷ ls) h = ground (arith, append_assoc l.content a b)

pub write-IsAtEnd : (e : Encoder) (a : List ℕ) → IsAtEnd e → IsAtEnd (write e a)
unfolding write
write-IsAtEnd e a h = go e.stream e.layers h
  where
    go :
        (s : OctetVectorOstream) (ls : List SeqStruct)
        → s.write_pos ≡ length s.vec
        → IsAtEnd (write (record { stream = s; layers = ls }) a)
    go s [] h = rw (ostream_append s a h) (omega (arith, length-append s.vec a))
    go s (l ∷ ls) h = h

-- Every digit but the last marked with the top bit.
abbrev pub marked : List ℕ → List ℕ
marked [] = []
marked (d ∷ []) = d ∷ []
marked (d ∷ c ∷ ds) = (d + 128) ∷ marked (c ∷ ds)

-- The octets of a long tag.
unfoldable pub tag_groups : ℕ → List ℕ
tag_groups v = marked (digits 128 (suc (highest_bit_block v false 8 7)) v)

clear_marked :
    (n v : ℕ) → v < 2 ^ 64 → clear_last (octet_loop 64 v 7 0x80 n) ≡ marked (digits_down 128 n v)
unfolding clear_last octet_loop
clear_marked zero v h = refl
clear_marked (suc zero) v h =
    let top = v / 1 % 128 in
    ap (λ t. t % 128 ∷ []) (bit_or_128 top (omega arith)) ∙ ap (λ (t : ℕ). t ∷ []) (omega arith)
clear_marked (suc (suc n)) v h = cc (
  bits_from_position_lem 64 v (suc n) 7 h,
  bit_or_128 (v / 128 ^ suc n % 128) (omega arith),
  clear_marked (suc n) v h,
)

unfoldable pub tag_octets : AsnHeader → List ℕ
tag_octets h =
    if ltb 30 h.tag
    then tag_first_byte h.asn_class 0x1f h.is_constructed ∷ tag_groups h.tag
    else tag_first_byte h.asn_class (h.tag % 32) h.is_constructed ∷ []

unfoldable pub length_octets : ℕ → List ℕ
length_octets n =
    let k = suc (highest_bit_block n false 8 8) in
    if ltb 127 n then (128 + k) ∷ digits 256 k n else n ∷ []

unfoldable pub header_octets : AsnHeader → List ℕ
header_octets h = tag_octets h ++ length_octets h.length

bit_or_length : (n : ℕ) → n < 128 → bit_or 0x80 n ≡ 128 + n
unfolding holds_below
bit_or_length n h = (==_iff _ _).0 (holds_below_at (λ x. bit_or 0x80 x == 128 + x) 128 n h refl)

module _ (e : Encoder) (h : AsnHeader) (start : IsAtEnd e) where
  long_tag_output :
      h.tag < 2 ^ 64
      → encode_long_tag e h
        ≡ ok (write e (tag_first_byte h.asn_class 0x1f h.is_constructed ∷ tag_groups h.tag))
  unfolding encode_long_tag encode_tag_first_byte tag_groups
  long_tag_output fits =
      let k = highest_bit_block h.tag false 8 7 in
      let first = tag_first_byte h.asn_class 0x1f h.is_constructed ∷ [] in
      let e' : k + 1 ≡ suc k = omega arith in
      rw (encode_to_octets_lem 64 10 h.tag 8 false 7 0x80 (omega (arith, groups-le h.tag)), e')
        (ap (λ t. ok (write (write e first) t))
            (clear_marked (suc k) h.tag fits ∙ ap marked (digits_down-digits 128 (suc k) h.tag))
          ∙ ap ok (write-write e first (tag_groups h.tag) start))

  encode_tag_output : h.tag < 2 ^ 64 → encode_tag e h ≡ ok (write e (tag_octets h))
  unfolding encode_tag tag_octets encode_tag_first_byte
  encode_tag_output fits = elim (Bool-cases (ltb 30 h.tag)) [
    | inl long ↦ rw long (long_tag_output fits)
    | inr short ↦ rw short refl
  ]

  long_length_output :
      h.length < 2 ^ 64
      → let k = suc (highest_bit_block h.length false 8 8) in
        encode_long_length e h ≡ ok (write e ((128 + k) ∷ digits 256 k h.length))
  unfolding encode_long_length
  long_length_output fits =
      let k = suc (highest_bit_block h.length false 8 8) in
      let short = octets-le h.length 8 (omega arith) in
      let written : encode_to_octets 64 8 h.length 8 false 8 0 ≡ ok (digits 256 k h.length) =
        encode_unsigned 64 8 h.length 8 false fits short in
      let size : bit_or 0x80 (length (digits 256 k h.length)) ≡ 128 + k =
        ap (bit_or 0x80) (length-digits 256 k h.length) ∙ bit_or_length k (omega arith) in
      rw (written, size) (ap ok (write-write e ((128 + k) ∷ []) (digits 256 k h.length) start))

  encode_length_output :
      h.length < 2 ^ 64 → encode_length e h ≡ ok (write e (length_octets h.length))
  unfolding encode_length length_octets
  encode_length_output fits = elim (Bool-cases (ltb 127 h.length)) [
    | inl long ↦ rw long (long_length_output fits)
    | inr short ↦ rw short (ap (λ t. ok (write e (t ∷ []))) (ground arith))
  ]

-- A header goes out as its tag octets and its length octets.
pub encode_header_output :
    (e : Encoder) (h : AsnHeader)
    → IsAtEnd e
    → h.tag < 2 ^ 64
    → h.length < 2 ^ 64
    → encode_header e h ≡ ok (write e (header_octets h))
unfolding encode_header header_octets
encode_header_output e h start ft fl = rw (encode_tag_output e h start ft) (
    encode_length_output (write e (tag_octets h)) h (write-IsAtEnd e (tag_octets h) start) fl
    ∙ ap ok (write-write e (tag_octets h) (length_octets h.length) start))
