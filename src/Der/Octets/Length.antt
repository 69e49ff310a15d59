-- ===== src/Der/Octets/Length.antt =====
-- How many blocks `highest_bit_block` asks for: enough to hold the value, with a bit to spare for the
-- sign where one is wanted, and no more.
use securepath.Base.{
  ℕ, zero, suc, ◌+◌, ◌-◌, ◌*◌, ◌/◌, ◌%◌, ◌^◌, ◌≤◌, ◌<◌, ◌≡◌, ◌≢◌, ap, true, false, ◌==◌, arith,
  Bool-cases, inl, inr,
}
use securepath.Base.Bits.{two_pow_suc, two_pow_mono, two_pow_mul, pow_pos}
use securepath.Der.Octets.{top_bit, highest_bit_block}
use native.Mathlib.Nat.{div-lt_iff_lt-mul, div-eq_of_lt}
use native.Mathlib.Decide.{dec_lt}

-- A bit at the top of a value is 0 exactly when the value lies below it.
bit_clear : (v n : ℕ) → v < 2 ^ suc n → v / 2 ^ n % 2 ≡ 0 → v < 2 ^ n
bit_clear v n h e =
    let p = pow_pos 2 n (omega arith) in
    let small =
      (div-lt_iff_lt-mul {k = 2 ^ n} {x = v} {y = 2} p).1 (omega (arith, two_pow_suc n)) in
    let none = (div-lt_iff_lt-mul {k = 2 ^ n} {x = v} {y = 1} p).0 (omega arith) in omega arith

top_bit_above : (n v : ℕ) → v < 2 ^ n → v < 2 ^ top_bit n v
unfolding top_bit
top_bit_above zero v h = h
top_bit_above (suc n) v h = elim (Bool-cases (v / 2 ^ n % 2 == 0)) [
  | inl e ↦ ground (arith, top_bit_above n v, bit_clear v n h)
  | inr e ↦ ground arith
]

bit_set : (v n : ℕ) → v / 2 ^ n % 2 ≢ 0 → 2 ^ n ≤ v
bit_set v n h = elim (dec_lt v (2 ^ n)) [
  | yes small ↦ absurd (omega (arith, div-eq_of_lt small))
  | no large ↦ omega arith
]

top_bit_below : (n v k : ℕ) → top_bit n v ≡ suc k → 2 ^ k ≤ v
unfolding top_bit
top_bit_below zero v k h = absurd (omega arith)
top_bit_below (suc n) v k h = elim (Bool-cases (v / 2 ^ n % 2 == 0)) [
  | inl e ↦ top_bit_below n v k (ground arith)
  | inr e ↦ let last : n ≡ k = ground arith in rw (← last) (bit_set v n (ground arith))
]

top_bit-le : (n v : ℕ) → top_bit n v ≤ n
unfolding top_bit
top_bit-le zero v = omega arith
top_bit-le (suc n) v = ground (arith, top_bit-le n v)

module _ (n v k block : ℕ) where
  -- The blocks counted hold the value, and `spare` tells whether twice the value fits as well.
  blocks_hold : v < 2 ^ n → top_bit n v ≤ k * block → v < (2 ^ block) ^ k
  blocks_hold h le =
      let above = top_bit_above n v h in
      rw (← two_pow_mul k block) (omega (arith, two_pow_mono (top_bit n v) (k * block) le))

  blocks_hold_twice : v < 2 ^ n → top_bit n v < k * block → 2 * v < (2 ^ block) ^ k
  blocks_hold_twice h le =
      let above = top_bit_above n v h in
      let mono = two_pow_mono (suc (top_bit n v)) (k * block) le in
      rw (← two_pow_mul k block) (omega (arith, two_pow_suc (top_bit n v)))

  blocks_needed : k * block < top_bit n v → (2 ^ block) ^ k ≤ v
  blocks_needed h =
      let below = top_bit_below n v (top_bit n v - 1) (omega arith) in
      rw (← two_pow_mul k block)
        (omega (arith, two_pow_mono (k * block) (top_bit n v - 1) (omega arith)))

  blocks_needed_twice : k * block ≤ top_bit n v → 0 < top_bit n v → (2 ^ block) ^ k ≤ 2 * v
  blocks_needed_twice h p =
      let below = top_bit_below n v (top_bit n v - 1) (omega arith) in
      let same : suc (top_bit n v - 1) ≡ top_bit n v = omega arith in
      let double = two_pow_suc (top_bit n v - 1) in
      rw (← two_pow_mul k block)
        (omega (arith, ap (λ (t : ℕ). 2 ^ t) same, two_pow_mono (k * block) (top_bit n v) h))

-- Unsigned octets.
pub octets_hold :
    (v size_hint : ℕ)
    → v < 2 ^ (size_hint * 8)
    → v < 256 ^ (highest_bit_block v false size_hint 8 + 1)
unfolding highest_bit_block
octets_hold v s h = blocks_hold (s * 8) v _ 8 h (omega arith)

pub octets_needed :
    (v size_hint : ℕ)
    → 0 < highest_bit_block v false size_hint 8
    → 256 ^ highest_bit_block v false size_hint 8 ≤ v
unfolding highest_bit_block
octets_needed v s h = blocks_needed (s * 8) v _ 8 (omega arith)

pub octets-le :
    (v size_hint : ℕ) → 0 < size_hint → highest_bit_block v false size_hint 8 + 1 ≤ size_hint
unfolding highest_bit_block
octets-le v s h = omega (arith, top_bit-le (s * 8) v)

-- Octets with room for the sign.
pub signed_octets_hold :
    (v size_hint : ℕ)
    → v < 2 ^ (size_hint * 8)
    → 2 * v < 256 ^ (highest_bit_block v true size_hint 8 + 1)
unfolding highest_bit_block
signed_octets_hold v s h = blocks_hold_twice (s * 8) v _ 8 h (ground arith)

pub signed_octets_needed :
    (v size_hint : ℕ)
    → 0 < highest_bit_block v true size_hint 8
    → 256 ^ highest_bit_block v true size_hint 8 ≤ 2 * v
unfolding highest_bit_block
signed_octets_needed v s h = blocks_needed_twice (s * 8) v _ 8 (ground arith) (ground arith)

pub signed_octets-le : (v size_hint : ℕ) → highest_bit_block v true size_hint 8 ≤ size_hint
unfolding highest_bit_block
signed_octets-le v s = ground (arith, top_bit-le (s * 8) v)

-- Groups of seven bits, as a long tag is written in.
pub groups_hold : (v : ℕ) → v < 2 ^ 64 → v < 128 ^ (highest_bit_block v false 8 7 + 1)
unfolding highest_bit_block
groups_hold v h = blocks_hold 64 v _ 7 h (omega arith)

pub groups_needed :
    (v : ℕ) → 0 < highest_bit_block v false 8 7 → 128 ^ highest_bit_block v false 8 7 ≤ v
unfolding highest_bit_block
groups_needed v h = blocks_needed 64 v _ 7 (omega arith)

pub groups-le : (v : ℕ) → highest_bit_block v false 8 7 ≤ 9
unfolding highest_bit_block
groups-le v = omega (arith, top_bit-le 64 v)
