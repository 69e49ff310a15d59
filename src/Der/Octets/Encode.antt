-- ===== src/Der/Octets/Encode.antt =====
-- The octets that `encode_integer` writes: the digits of the number, or of its complement.
use securepath.Base.{
  ℕ, suc, ◌+◌, ◌-◌, ◌*◌, ◌/◌, ◌%◌, ◌^◌, ◌≤◌, ◌<◌, ◌≡◌, ◌↔◌, subst, ap, sym, ◌∙◌, bit_xor, Bool,
  true, false, arith, ok, ◌==◌, leb, le→leb,
}
use securepath.Base.Bits.{two_pow_mono, two_pow_mul, two_pow_suc, bit_xor_ones, pow_pos}
use securepath.Base.Int.{pos, negsuc}
use securepath.Der.Octets.{
  octet_loop, highest_bit_block, encode_to_octets, sign_mask, translate_negative, encode_integer,
  is_negative,
}
use securepath.Der.Octets.Length.{
  octets_hold, octets_needed, signed_octets_hold, signed_octets_needed, signed_octets-le,
}
use securepath.Der.Octets.Digits.{digits, octet_loop-digits, digits_first}
use native.Mathlib.Decide.{dec_lt}
use native.Mathlib.Nat.{pow-suc, pow-le-pow_right, div-lt_iff_lt-mul, le-div_iff_mul-le}

-- The powers of 256 under the names that the shifts give them.
pub octet_power : (n : ℕ) → 2 ^ (n * 8) ≡ 256 ^ n
octet_power n = two_pow_mul n 8

pub pow_256_mono : (m n : ℕ) → m ≤ n → 256 ^ m ≤ 256 ^ n
pow_256_mono m n h = pow-le-pow_right (omega arith) h

pub pow_256_reflect : (m n : ℕ) → 256 ^ m < 256 ^ n → m < n
pow_256_reflect m n h = elim (dec_lt m n) [
  | yes p ↦ p
  | no p ↦ absurd (omega (arith, pow_256_mono n m (omega arith)))
]

-- Half of the modulus of `n` octets.
pub half_power : (n : ℕ) → 2 * 2 ^ (suc n * 8 - 1) ≡ 256 ^ suc n
half_power n =
    let e : suc (suc n * 8 - 1) ≡ suc n * 8 = omega arith in
    sym (two_pow_suc (suc n * 8 - 1)) ∙ ap (λ (t : ℕ). 2 ^ t) e ∙ octet_power (suc n)

sign_mask_lem : (n : ℕ) → sign_mask (suc n) ≡ 2 ^ (suc n * 8) - 1
unfolding sign_mask
sign_mask_lem n =
    omega (arith, half_power n, octet_power (suc n), pow_pos 2 (suc n * 8 - 1) (omega arith))

-- A number between two powers of 256 takes just so many octets.
pub octets_exact :
    (v s k : ℕ)
    → v < 2 ^ (s * 8)
    → 256 ^ k ≤ v
    → v < 256 ^ suc k
    → highest_bit_block v false s 8 ≡ k
octets_exact v s k h lo hi =
    let found = highest_bit_block v false s 8 in
    let below : k < found + 1 = pow_256_reflect k (found + 1) (omega (arith, octets_hold v s h)) in
    elim (dec_lt 0 found) [
      | yes p ↦
          let above : found < suc k =
            pow_256_reflect found (suc k) (omega (arith, octets_needed v s p)) in
          omega arith
      | no p ↦ omega arith
    ]

-- With room for them `encode_to_octets` writes the blocks that the value takes.
pub encode_to_octets_lem :
    (w c v s : ℕ) (signed : Bool) (block mask : ℕ)
    → highest_bit_block v signed s block + 1 ≤ c
    → encode_to_octets w c v s signed block mask
      ≡ ok (octet_loop w v block mask (highest_bit_block v signed s block + 1))
unfolding encode_to_octets
encode_to_octets_lem w c v s signed block mask le =
    rw (le→leb (highest_bit_block v signed s block + 1) c le)

-- What `encode_to_octets` returns, with its length in view.
pub encode_unsigned :
    (w c v s : ℕ) (signed : Bool)
    → v < 2 ^ w
    → highest_bit_block v signed s 8 + 1 ≤ c
    → encode_to_octets w c v s signed 8 0 ≡ ok (digits 256 (suc (highest_bit_block v signed s 8)) v)
unfolding encode_to_octets
encode_unsigned w c v s signed h le =
    let length = highest_bit_block v signed s 8 in
    let e : length + 1 ≡ suc length = omega arith in
    rw (le→leb (length + 1) c le, e) (ap ok (octet_loop-digits w v (suc length) h))

top_bit_test :
    (d q x m : ℕ) → d ≡ q % 256 → q < 256 → (128 ≤ q) ↔ (m ≤ x) → (d / 128 % 2 == 1) ≡ leb m x
top_bit_test d q x m e h i = elim (dec_lt q 128) [
  | yes low ↦ elim (dec_lt x m) [
    | yes p ↦ ground arith
    | no p ↦ absurd (omega (arith, i.1 (omega arith)))
  ]
  | no high ↦ let p = i.0 (omega arith) in ground arith
]

pub is_negative-digits :
    (k v : ℕ) → v < 256 ^ suc k → is_negative (digits 256 (suc k) v) ≡ leb (256 ^ suc k) (2 * v)
unfolding is_negative
is_negative-digits k v h =
    let first = digits_first 256 k v 0 in
    let p = pow_pos 256 k (omega arith) in
    let top = pow-suc 256 k in
    let small = (div-lt_iff_lt-mul {k = 256 ^ k} {x = v} {y = 256} p).1 (omega arith) in
    let half = le-div_iff_mul-le {k = 256 ^ k} {x = 128} {y = v} p in
    top_bit_test _ (v / 256 ^ k) (2 * v) (256 ^ suc k) first small
      (λ h. omega (arith, half.0 h), λ h. half.1 (omega arith))

-- The mask turns a number of `suc k` octets round in the range of those octets.
pub xor_sign_mask :
    (k n : ℕ) → n < 256 ^ suc k → bit_xor n (sign_mask (suc k)) ≡ 256 ^ suc k - 1 - n
xor_sign_mask k n h =
    let e = octet_power (suc k) in
    rw (sign_mask_lem k, bit_xor_ones (suc k * 8) n (omega arith)) (omega arith)

-- A size hint is the size of the caller's type, 1 to 8 octets.
module _ (s : ℕ) (lo : 0 < s) (hi : s ≤ 8) where
  pub hint_bound : 2 ^ (s * 8) ≤ 2 ^ 64
  hint_bound = two_pow_mono (s * 8) 64 (omega arith)

  hint_capacity : (v : ℕ) → highest_bit_block v true s 8 + 1 ≤ 9
  hint_capacity v = omega (arith, signed_octets-le v s)

  -- What is written for a number that is not negative, and for one that is.
  pub encode_positive :
      (v : ℕ)
      → v < 2 ^ (s * 8)
      → encode_integer 64 (pos v) s ≡ ok (digits 256 (suc (highest_bit_block v true s 8)) v)
  unfolding encode_integer
  encode_positive v h = encode_unsigned 64 9 v s true (omega (arith, hint_bound)) (hint_capacity v)

  -- The octets of a negative number fit the hint.
  pub negative_length : (n : ℕ) → n < 2 ^ (s * 8 - 1) → highest_bit_block n true s 8 < s
  negative_length n h = elim (dec_lt 0 (highest_bit_block n true s 8)) [
    | yes p ↦
        let e : suc (s - 1) ≡ s = omega arith in
        let half = subst (λ (t : ℕ). 2 * 2 ^ (t * 8 - 1) ≡ 256 ^ t) e (half_power (s - 1)) in
        pow_256_reflect _ s (omega (arith, signed_octets_needed n s p))
    | no p ↦ omega arith
  ]

  pub hint_half : (n : ℕ) → n < 2 ^ (s * 8 - 1) → n < 2 ^ (s * 8)
  hint_half n h = omega (arith, two_pow_mono (s * 8 - 1) (s * 8) (omega arith))

  -- The complement of a negative number takes the same octets, the first of them from 128 on.
  abbrev pub complement : ℕ → ℕ
  complement n = 256 ^ suc (highest_bit_block n true s 8) - 1 - n

  module _ (n : ℕ) (h : n < 2 ^ (s * 8 - 1)) where
    pub twice_fits : 2 * n < 256 ^ suc (highest_bit_block n true s 8)
    twice_fits =
        let e : highest_bit_block n true s 8 + 1 ≡ suc (highest_bit_block n true s 8) =
          omega arith in
        subst (λ (t : ℕ). 2 * n < 256 ^ t) e (signed_octets_hold n s (hint_half n h))

    pub complement_fits : complement n < 2 ^ (s * 8)
    complement_fits =
        let k = highest_bit_block n true s 8 in
        let upper = pow_256_mono (suc k) s (negative_length n h) in
        omega (arith, octet_power s, pow_pos 256 (suc k) (omega arith))

    pub complement_octets :
        highest_bit_block (complement n) false s 8 ≡ highest_bit_block n true s 8
    complement_octets =
        let k = highest_bit_block n true s 8 in
        let p = pow_pos 256 k (omega arith) in
        let t = pow-suc 256 k in
        let twice = twice_fits in
        octets_exact (complement n) s k complement_fits (omega arith) (omega arith)

    translate_negative_lem : translate_negative n s ≡ complement n
    unfolding translate_negative
    translate_negative_lem =
        let e : highest_bit_block n true s 8 + 1 ≡ suc (highest_bit_block n true s 8) =
          omega arith in
        let twice = twice_fits in
        ap (λ k. bit_xor n (sign_mask k)) e
        ∙ xor_sign_mask (highest_bit_block n true s 8) n (omega arith)

    pub encode_negative :
        encode_integer 64 (negsuc n) s
        ≡ ok (digits 256 (suc (highest_bit_block n true s 8)) (complement n))
    unfolding encode_integer
    encode_negative =
        let exact = complement_octets in
        let small = negative_length n h in
        rw (translate_negative_lem) (
          encode_unsigned 64 9 (complement n) s false (omega (arith, hint_bound, complement_fits))
            (omega arith)
          ∙ ap (λ k. ok (digits 256 (suc k) (complement n))) exact)
