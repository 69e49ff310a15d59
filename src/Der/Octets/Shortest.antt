-- ===== src/Der/Octets/Shortest.antt =====
-- DER asks for the shortest two's complement form; this is about the one that `encode_integer` picks.
use securepath.Base.{
  ℕ, suc, ◌+◌, ◌-◌, ◌*◌, ◌/◌, ◌%◌, ◌^◌, ◌≤◌, ◌<◌, ◌≡◌, sym, ◌∙◌, true, false, List, [], ◌∷◌, arith,
  All, length, ok, leb, leb→le, ◌↔◌, subst, Bool-cases, inl, inr, ◌==◌,
}
use securepath.Base.Bits.{pow_pos, two_pow_mono}
use securepath.Base.Int.{ℤ, pos, negsuc, FitsSigned}
use securepath.Der.Octets.{
  highest_bit_block, decode_from_octets, encode_integer, decode_integer, is_negative,
}
use securepath.Der.Octets.Length.{signed_octets_needed}
use securepath.Der.Octets.Digits.{digits, length-digits}
use securepath.Der.Octets.Values.{IsOctet, be_value, be_value-lt, decode_value}
use securepath.Der.Octets.Encode.{
  pow_256_mono, pow_256_reflect, octet_power, half_power, octets_exact, encode_positive,
  encode_negative, complement,
}
use securepath.Der.Octets.RoundTrip.{decode_positive, decode_negative}
use native.Mathlib.Nat.{pow-suc}
use native.Mathlib.Decide.{dec_lt}

sign_split : (b p r : ℕ) → b < 256 → r < p → (128 ≤ b) ↔ (128 * p ≤ b * p + r)
sign_split b p r h hr = (
  λ hi. grind arith,
  λ le. elim (dec_lt b 128) [
    | yes low ↦ absurd (too_small (omega arith) le)
    | no high ↦ omega arith
  ],
)
  where
    too_small : b ≤ 127 → 128 * p ≤ b * p + r → ⊥
    too_small low le = grind arith

octet_below : (b p r : ℕ) → b < 256 → r < p → b * p + r < p * 256
octet_below b p r h hr = grind arith

sign_test : (b p v : ℕ) → b < 256 → (128 ≤ b) ↔ (p ≤ v) → (b / 128 % 2 == 1) ≡ leb p v
sign_test b p v h i = elim (dec_lt b 128) [
  | yes low ↦ elim (dec_lt v p) [
    | yes less ↦ ground arith
    | no more ↦ absurd (omega (arith, i.1 (omega arith)))
  ]
  | no high ↦ let more = i.0 (omega arith) in ground arith
]

-- The sign bit halves the range of a value.
value_by_sign :
    (bs : List ℕ) (k : ℕ)
    → All IsOctet bs
    → length bs ≡ suc k
    → (is_negative bs ≡ leb (128 * 256 ^ k) (be_value bs)) × (be_value bs < 256 ^ suc k)
unfolding is_negative
value_by_sign [] k h e = absurd (omega arith)
value_by_sign (b ∷ bs) k (hb, hs) e =
    let p = 256 ^ length bs in
    let r = be_value bs in
    let rest = be_value-lt bs hs in
    let tail : length bs ≡ k = omega arith in
    rw (← tail) (
      sign_test b (128 * p) (b * p + r) hb (sign_split b p r hb rest),
      rw (pow-suc 256 (length bs)) (octet_below b p r hb rest),
    )

module _ (s : ℕ) (lo : 0 < s) (hi : s ≤ 8) where
  -- Octets no more than the type has give an integer of the range that so many octets stand for.
  decode_range :
      (bs : List ℕ) (k : ℕ)
      → All IsOctet bs
      → length bs ≡ suc k
      → suc k ≤ s
      → FitsSigned (128 * 256 ^ k) (decode_integer 64 bs s)
  decode_range bs k h e le = elim (Bool-cases (is_negative bs)) [
    | inl minus ↦
        let large = leb→le (128 * 256 ^ k) v (sym (value_by_sign bs k h e).0 ∙ minus) in
        let lower : 256 ^ k ≤ v = omega arith in
        let exact = octets_exact v s k fits lower small in
        rw (decode_negative 64 bs s v k minus value exact small)
          (omega (arith, pow-suc 256 k, pow_pos 256 k (omega arith)))
    | inr plus ↦
        let low : leb (128 * 256 ^ k) v ≡ false = sym (value_by_sign bs k h e).0 ∙ plus in
        rw (decode_positive 64 bs s plus, value) (ground arith)
  ]
    where
      v : ℕ
      v = be_value bs

      small : v < 256 ^ suc k
      small = (value_by_sign bs k h e).1

      fits : v < 2 ^ (s * 8)
      fits = omega (arith, small, octet_power s, pow_256_mono (suc k) s le)

      wide : 256 ^ length bs ≤ 2 ^ 64
      wide = pow_256_mono (length bs) 8 (omega arith)

      value : decode_from_octets 64 bs ≡ v
      value = decode_value 64 bs h wide

  needed_length : (n k : ℕ) → n < 128 * 256 ^ k → highest_bit_block n true s 8 < suc k
  needed_length n k h = elim (dec_lt 0 (highest_bit_block n true s 8)) [
    | yes p ↦ pow_256_reflect _ (suc k) (omega (arith, signed_octets_needed n s p, pow-suc 256 k))
    | no p ↦ omega arith
  ]

  half_of_hint : (k : ℕ) → suc k ≤ s → 128 * 256 ^ k ≤ 2 ^ (s * 8 - 1)
  half_of_hint k le =
      let e : suc (s - 1) ≡ s = omega arith in
      let half = subst (λ (t : ℕ). 2 * 2 ^ (t * 8 - 1) ≡ 256 ^ t) e (half_power (s - 1)) in
      omega (arith, pow_256_mono (suc k) s le, pow-suc 256 k)

  hint_half_whole : 2 ^ (s * 8 - 1) ≤ 2 ^ (s * 8)
  hint_half_whole = two_pow_mono (s * 8 - 1) (s * 8) (omega arith)

  shortest_of_range :
      (value : ℤ) (k : ℕ)
      → FitsSigned (128 * 256 ^ k) value
      → suc k ≤ s
      → (bs : List ℕ) × (encode_integer 64 value s ≡ ok bs) × (length bs ≤ suc k)
  shortest_of_range (pos v) k fits le =
      let size = length-digits 256 (suc (highest_bit_block v true s 8)) v in
      let short = needed_length v k fits in
      (
        digits 256 (suc (highest_bit_block v true s 8)) v,
        encode_positive s lo hi v (omega (arith, half_of_hint k le, hint_half_whole)),
        omega arith,
      )
  shortest_of_range (negsuc n) k fits le =
      let size = length-digits 256 (suc (highest_bit_block n true s 8)) (complement s lo hi n) in
      let short = needed_length n k fits in
      (
        digits 256 (suc (highest_bit_block n true s 8)) (complement s lo hi n),
        encode_negative s lo hi n (omega (arith, half_of_hint k le)),
        omega arith,
      )

  -- An integer read from at least one octet and at most as many as the type has is written again in
  -- no more octets than it was read from: no other two's complement form is shorter.
  pub encode_shortest :
      (cs : List ℕ)
      → All IsOctet cs
      → 0 < length cs
      → length cs ≤ s
      → (bs : List ℕ) × (encode_integer 64 (decode_integer 64 cs s) s ≡ ok bs)
        × (length bs ≤ length cs)
  encode_shortest cs h some le =
      let e : length cs ≡ suc (length cs - 1) = omega arith in
      let (bs, written, short) =
        shortest_of_range _ (length cs - 1) (decode_range cs _ h e (omega arith)) (omega arith) in
      (bs, written, omega arith)
