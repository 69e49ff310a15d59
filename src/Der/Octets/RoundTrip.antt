-- ===== src/Der/Octets/RoundTrip.antt =====
-- Integers written by `encode_integer` and read by `decode_integer`.
use securepath.Base.{
  ℕ, suc, ◌+◌, ◌-◌, ◌*◌, ◌^◌, ◌≤◌, ◌<◌, ◌≡◌, ap, ◌∙◌, bit_xor, true, false, List, arith, All,
  length, ok, leb, subst,
}
use securepath.Base.Bits.{pow_pos}
use securepath.Base.Int.{ℤ, pos, negsuc, FitsSigned}
use securepath.Der.Octets.{
  highest_bit_block, decode_from_octets, sign_mask, encode_integer, decode_integer, is_negative,
}
use securepath.Der.Octets.Length.{signed_octets_hold, signed_octets-le}
use securepath.Der.Octets.Digits.{digits, decode_digits, length-digits, digits-All}
use securepath.Der.Octets.Values.{IsOctet}
use securepath.Der.Octets.Encode.{
  is_negative-digits, xor_sign_mask, complement, twice_fits, complement_fits, complement_octets,
  negative_length, hint_bound, hint_half, encode_positive, encode_negative,
}

-- What `decode_integer` makes of octets, by the sign bit.
pub decode_positive :
    (w : ℕ) (bs : List ℕ) (s : ℕ)
    → is_negative bs ≡ false
    → decode_integer w bs s ≡ pos (decode_from_octets w bs)
unfolding decode_integer
decode_positive w bs s h = rw h

abbrev unmask : ℕ → ℕ → ℕ
unmask v s = bit_xor v (sign_mask (highest_bit_block v false s 8 + 1))

decode_masked :
    (w : ℕ) (bs : List ℕ) (s : ℕ)
    → is_negative bs ≡ true
    → decode_integer w bs s ≡ negsuc (unmask (decode_from_octets 64 bs) s)
unfolding decode_integer
decode_masked w bs s h = rw h

unmask_lem :
    (v s k : ℕ)
    → highest_bit_block v false s 8 ≡ k
    → v < 256 ^ suc k
    → unmask v s ≡ 256 ^ suc k - 1 - v
unmask_lem v s k b small =
    let e : highest_bit_block v false s 8 + 1 ≡ suc k = omega arith in
    ap (λ t. bit_xor v (sign_mask t)) e ∙ xor_sign_mask k v small

pub decode_negative :
    (w : ℕ) (bs : List ℕ) (s v k : ℕ)
    → is_negative bs ≡ true
    → decode_from_octets 64 bs ≡ v
    → highest_bit_block v false s 8 ≡ k
    → v < 256 ^ suc k
    → decode_integer w bs s ≡ negsuc (256 ^ suc k - 1 - v)
decode_negative w bs s v k h e b small =
    decode_masked w bs s h ∙ ap (λ t. negsuc (unmask t s)) e ∙ ap negsuc (unmask_lem v s k b small)

-- The octets of an integer, and what holds of them.
pub record Encoded (value : ℤ) (s : ℕ) (capacity : ℕ) (bs : List ℕ) : Type 0 where
  pub written : encode_integer 64 value s ≡ ok bs
  pub read : decode_integer 64 bs s ≡ value
  pub some_octet : 0 < length bs
  pub few_octets : length bs ≤ capacity
  pub octets : All IsOctet bs

module _ (s : ℕ) (lo : 0 < s) (hi : s ≤ 8) where
  signed_positive :
      (v : ℕ)
      → v < 2 ^ (s * 8)
      → let bs = digits 256 (suc (highest_bit_block v true s 8)) v in
        (is_negative bs ≡ false) × (decode_integer 64 bs s ≡ pos v)
  signed_positive v h =
      let k = highest_bit_block v true s 8 in
      let e : k + 1 ≡ suc k = omega arith in
      let twice = subst (λ (t : ℕ). 2 * v < 256 ^ t) e (signed_octets_hold v s h) in
      let small : v < 256 ^ suc k = omega arith in
      let clear : leb (256 ^ suc k) (2 * v) ≡ false = ground arith in
      let sign = is_negative-digits k v small ∙ clear in
      let wide = hint_bound s lo hi in
      (
        sign,
        decode_positive 64 (digits 256 (suc k) v) s sign
            ∙ ap pos (decode_digits 64 (suc k) v small (omega arith)),
      )

  -- For a size of one to eight octets, an unsigned number below its bound is written, and reading
  -- the octets gives it back. They are at least one, at most one more than the type has, and the sign
  -- bit is clear.
  pub unsigned_round_trip :
      (v : ℕ)
      → v < 2 ^ (s * 8)
      → (bs : List ℕ) × Encoded (pos v) s (s + 1) bs × (is_negative bs ≡ false)
  unsigned_round_trip v h =
      let k = highest_bit_block v true s 8 in
      let (sign, back) = signed_positive v h in
      let size = length-digits 256 (suc k) v in
      (
        digits 256 (suc k) v,
        record {
          written = encode_positive s lo hi v h;
          read = back;
          some_octet = omega arith;
          few_octets = omega (arith, signed_octets-le v s);
          octets = digits-All 256 (suc k) v (omega arith);
        },
        sign,
      )

  -- For a size of one to eight octets, a signed number in its range is written, and reading the octets
  -- gives it back. They are at least one and at most as many as the type has.
  pub signed_round_trip :
      (value : ℤ) → FitsSigned (2 ^ (s * 8 - 1)) value → (bs : List ℕ) × Encoded value s s bs
  signed_round_trip (pos v) h =
      let k = highest_bit_block v true s 8 in
      let wide = hint_half s lo hi v h in
      let size = length-digits 256 (suc k) v in
      let short = negative_length s lo hi v h in
      (
        digits 256 (suc k) v,
        record {
          written = encode_positive s lo hi v wide;
          read = (signed_positive v wide).1;
          some_octet = omega arith;
          few_octets = omega arith;
          octets = digits-All 256 (suc k) v (omega arith);
        },
      )
  signed_round_trip (negsuc n) h =
      let k = highest_bit_block n true s 8 in
      let w = complement s lo hi n in
      let twice = twice_fits s lo hi n h in
      let p = pow_pos 256 (suc k) (omega arith) in
      let small : w < 256 ^ suc k = omega arith in
      let set : leb (256 ^ suc k) (2 * w) ≡ true = ground arith in
      let wide = hint_bound s lo hi in
      let fits = complement_fits s lo hi n h in
      let value = decode_digits 64 (suc k) w small (omega arith) in
      let back =
        decode_negative 64 (digits 256 (suc k) w) s w k (is_negative-digits k w small ∙ set) value
          (complement_octets s lo hi n h) small in
      let twice_over : 256 ^ suc k - 1 - w ≡ n = omega arith in
      let size = length-digits 256 (suc k) w in
      let short = negative_length s lo hi n h in
      (
        digits 256 (suc k) w,
        record {
          written = encode_negative s lo hi n h;
          read = back ∙ ap negsuc twice_over;
          some_octet = omega arith;
          few_octets = omega arith;
          octets = digits-All 256 (suc k) w (omega arith);
        },
      )
