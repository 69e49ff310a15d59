-- ===== src/Der/Decoder/Headers.antt =====
-- Headers: `decode_any_header` on what `encode_header` wrote.
use securepath.Base.{
  ℕ, suc, ◌+◌, ◌/◌, ◌%◌, ◌^◌, ◌≤◌, ◌<◌, ◌≡◌, refl, ap, sym, subst, true, false, ◌||◌, not, List, [],
  ◌∷◌, arith, ltb, ◌==◌, Bool-cases, inl, inr, append-nil, le→leb, ok,
}
use securepath.Der.Types.{AsnHeader, illegal_length, structure_too_big}
use securepath.Der.Octets.{highest_bit_block, decode_from_octets}
use securepath.Der.Octets.Length.{groups_hold, groups-le, octets_hold, octets-le}
use securepath.Der.Octets.Digits.{digits, digits-All, length-digits, decode_digits}
use securepath.Der.Encoder.{Encoder, encode_header, write}
use securepath.Der.Encoder.Output.{
  IsAtEnd, encode_header_output, marked, tag_groups, tag_octets, length_octets, header_octets,
}
use securepath.Der.Decoder.{
  pure, ◌>>=◌, read, decode_long_tag, decode_tag_number, decode_long_length, decode_length,
  decode_tag, decode_any_header, max_size,
}
use securepath.Der.Decoder.Gives.{
  Gives, Gives-pure, Gives-bind, Gives-require, Gives-map, Gives-read_count, Gives-octet,
}
use securepath.Der.Decoder.TagLoop.{FirstByte, first_byte, tag_value-digits, tag_loop_list}

long_tag_Gives : (v : ℕ) → v < 2 ^ 64 → Gives decode_long_tag (tag_groups v) v
unfolding decode_long_tag tag_groups
long_tag_Gives v h =
    let k = highest_bit_block v false 8 7 in
    let ds = digits 128 (suc k) v in
    let size = length-digits 128 (suc k) v in
    let held : v < 128 ^ suc k = subst (λ (t : ℕ). v < 128 ^ t) (omega arith) (groups_hold v h) in
    let value = tag_value-digits (suc k) v held in
    subst (λ t. Gives decode_long_tag (marked ds) t) value
      (tag_loop_list ds (omega arith) (digits-All 128 (suc k) v (omega arith))
        (omega (arith, groups-le v)) (omega arith))

abbrev pub IsTag : AsnHeader → Type 0
IsTag h = (h.asn_class < 4) × (h.tag < 2 ^ 64)

tag_from :
    (b v : ℕ) (more : List ℕ) (h : AsnHeader) (t : ℕ)
    → FirstByte b h.asn_class t h.is_constructed
    → h.tag ≡ v
    → Gives (decode_tag_number b) more v
    → Gives decode_tag (b ∷ more) (record h { length = 0 })
unfolding decode_tag
tag_from b v more h t f e g =
    let parsed : AsnHeader = record {
      asn_class = b / 2 ^ 6;
      tag = v;
      length = 0;
      is_constructed = b / 32 % 2 == 1;
    } in
    let same : parsed ≡ record h { length = 0 } = cc (f.class, f.form) in
    subst (λ t. Gives decode_tag (b ∷ more) t) same
      (Gives-bind _ (b ∷ []) more (Gives-octet b) (
        Gives-map
          (λ tag. record {
            asn_class = b / 2 ^ 6;
            tag = tag;
            length = 0;
            is_constructed = b / 32 % 2 == 1;
          })
          more g))

number_long : (b : ℕ) → b % 32 ≡ 31 → decode_tag_number b ≡ decode_long_tag
unfolding decode_tag_number
number_long b e = let t : (b % 32 == 31) ≡ true = ground arith in rw t

number_short : (b t : ℕ) → b % 32 ≡ t → t < 31 → decode_tag_number b ≡ pure t
unfolding decode_tag_number
number_short b t e h = let f : (b % 32 == 31) ≡ false = ground arith in rw f (ap pure e)

tag_Gives : (h : AsnHeader) → IsTag h → Gives decode_tag (tag_octets h) (record h { length = 0 })
unfolding tag_octets
tag_Gives h (hc, ht) = elim (Bool-cases (ltb 30 h.tag)) [
  | inl long ↦
      let f = first_byte h.asn_class 31 h.is_constructed hc (omega arith) in
      rw long (
        tag_from _ h.tag (tag_groups h.tag) h 31 f refl
          (rw (number_long _ f.number) (long_tag_Gives h.tag ht)))
  | inr short ↦
      let small : h.tag < 31 = ground arith in
      let f = first_byte h.asn_class (h.tag % 32) h.is_constructed hc (omega arith) in
      rw short (
        tag_from _ (h.tag % 32) [] h (h.tag % 32) f (omega arith)
          (rw (number_short _ (h.tag % 32) f.number (omega arith)) (Gives-pure _)))
]

long_length_Gives :
    (n : ℕ)
    → n < 2 ^ 64
    → (k : ℕ) → k ≡ suc (highest_bit_block n false 8 8)
    → Gives (decode_long_length (128 + k)) (digits 256 k n) n
unfolding decode_long_length
long_length_Gives n h k e =
    let few : k ≤ 8 = omega (arith, octets-le n 8 (omega arith)) in
    let size : (128 + k) % 128 ≡ k = omega arith in
    let test : not (ltb 8 k || (k == 0)) ≡ true = ground arith in
    let held : n < 256 ^ k = subst (λ (t : ℕ). n < 256 ^ t) (omega arith) (octets_hold n 8 h) in
    let value = decode_digits 64 k n held h in
    rw size (
      Gives-require _ illegal_length (digits 256 k n) test (
        subst
          (λ t. Gives (read k >>= λ octets. pure (decode_from_octets 64 octets)) (digits 256 k n) t)
          value
          (Gives-map (decode_from_octets 64) (digits 256 k n)
            (Gives-read_count k (digits 256 k n) (length-digits 256 k n)))))

length_Gives : (n : ℕ) → n < 2 ^ 64 → Gives decode_length (length_octets n) n
unfolding decode_length length_octets
length_Gives n h = elim (Bool-cases (ltb 127 n)) [
  | inl long ↦
      let k = suc (highest_bit_block n false 8 8) in
      let top : ((128 + k) / 128 % 2 == 1) ≡ true =
        let few = octets-le n 8 (omega arith) in ground arith in
      rw long (
        Gives-bind _ ((128 + k) ∷ []) (digits 256 k n) (Gives-octet (128 + k))
          (rw top (long_length_Gives n h k refl)))
  | inr short ↦
      let clear : (n / 128 % 2 == 1) ≡ false = ground arith in
      rw short (
        Gives-bind _ (n ∷ []) [] (Gives-octet n)
          (rw clear (subst (λ t. Gives (pure t) [] n) (ground arith) (Gives-pure n))))
]

-- The limit that the decoder sets for the declared length.
abbrev pub IsAllowed : AsnHeader → Type 0
IsAllowed h = h.length ≤ max_size h.is_constructed

limit_u64 : (h : AsnHeader) → IsAllowed h → h.length < 2 ^ 64
limit_u64 h le = ground arith

-- What is written as a header is read as one.
pub header_Gives :
    (h : AsnHeader) → IsTag h → IsAllowed h → Gives decode_any_header (header_octets h) h
unfolding decode_any_header header_octets
header_Gives h t le = Gives-bind _ (tag_octets h) (length_octets h.length) (tag_Gives h t) (
    rw (sym (append-nil (length_octets h.length))) (
      Gives-bind _ (length_octets h.length) [] (length_Gives h.length (limit_u64 h le))
        (Gives-require _ structure_too_big [] (le→leb h.length _ le) (Gives-pure h))))

-- Where the encoder is at the end of its buffer, `encode_header` writes a header whose class, tag and
-- length are allowed without an error, and from the octets that it adds the decoder gives the same
-- header, whatever follows them, and takes just these octets.
pub encode_header-Gives :
    (e : Encoder) (h : AsnHeader)
    → IsAtEnd e
    → IsTag h
    → IsAllowed h
    → (bs : List ℕ) × (encode_header e h ≡ ok (write e bs)) × Gives decode_any_header bs h
encode_header-Gives e h start t le =
    (header_octets h, encode_header_output e h start t.1 (limit_u64 h le), header_Gives h t le)
