-- ===== src/Base/Bits.antt =====
-- Powers of two, and bit masks as arithmetic.
use Prim.Native.Nat.{ℕ, zero, suc, ◌+◌, ◌-◌, ◌*◌, ◌/◌, ◌%◌, ◌^◌, ◌≤◌, ◌<◌, bit_or, bit_xor}
use Prim.Native.Nat.{digits, differ, bit_xor-bitwise}
use mathlib.Core.Path.{◌≡◌, refl}
use native.Mathlib.Omega.{arith}
use native.Mathlib.Nat.{pow-zero, pow-suc, add-zero, add-suc, mul_assoc, zero-mul, suc-mul}
use native.Mathlib.Nat.{pow-le-pow_right}
use securepath.Base.Tests.{◌==◌, ==_iff, holds_below, holds_below_at}

pub pow_pos : (b n : ℕ) → 0 < b → 0 < b ^ n
pow_pos b zero h = omega (arith, pow-zero b)
pow_pos b (suc n) h = rw (pow-suc b n) (grind (arith, pow_pos b n h))

pub two_pow_suc : (n : ℕ) → 2 ^ suc n ≡ 2 * 2 ^ n
two_pow_suc n = omega (arith, pow-suc 2 n)

pub two_pow_mono : (m n : ℕ) → m ≤ n → 2 ^ m ≤ 2 ^ n
two_pow_mono m n h = pow-le-pow_right (omega arith) h

pub two_pow_add : (m n : ℕ) → 2 ^ (m + n) ≡ 2 ^ m * 2 ^ n
two_pow_add m zero = rw (add-zero m) (omega arith)
two_pow_add m (suc n) =
    rw (add-suc m n, pow-suc 2 (m + n), two_pow_add m n, pow-suc 2 n) (mul_assoc (2 ^ m) (2 ^ n) 2)

-- A shift by `n` blocks of `k` bits.
pub two_pow_mul : (n k : ℕ) → 2 ^ (n * k) ≡ (2 ^ k) ^ n
two_pow_mul zero k = rw (zero-mul k, pow-zero (2 ^ k))
two_pow_mul (suc n) k = rw (suc-mul n k, two_pow_add (n * k) k, two_pow_mul n k, pow-suc (2 ^ k) n)

-- An octet with the top bit added.
pub bit_or_128 : (g : ℕ) → g < 128 → bit_or g 0x80 ≡ g + 128
unfolding holds_below
bit_or_128 g h = (==_iff _ _).0 (holds_below_at (λ x. bit_or x 0x80 == x + 128) 128 g h refl)

pub bit_or_0 : (g : ℕ) → g < 256 → bit_or g 0 ≡ g
unfolding holds_below
bit_or_0 g h = (==_iff _ _).0 (holds_below_at (λ x. bit_or x 0 == x) 256 g h refl)

abbrev xor_digits : ℕ → ℕ → ℕ → ℕ
xor_digits n a b = digits (λ b. b) differ n a b

-- The count of digits to go does not matter once it is enough.
xor_digits_enough : (n m a b : ℕ) → a ≤ n → a ≤ m → xor_digits n a b ≡ xor_digits m a b
xor_digits_enough zero zero a b p q = refl
xor_digits_enough zero (suc m) zero b p q = refl
xor_digits_enough zero (suc m) (suc a) b p q = absurd (omega arith)
xor_digits_enough (suc n) zero zero b p q = refl
xor_digits_enough (suc n) zero (suc a) b p q = absurd (omega arith)
xor_digits_enough (suc n) (suc m) zero b p q = refl
xor_digits_enough (suc n) (suc m) (suc a) b p q =
    omega (arith, xor_digits_enough n m (suc a / 2) (b / 2) (omega arith) (omega arith))

bit_xor-zero_left : (b : ℕ) → bit_xor 0 b ≡ b
bit_xor-zero_left b = bit_xor-bitwise 0 b

bit_xor_digit :
    (a b : ℕ) → bit_xor (suc a) b ≡ bit_xor (suc a / 2) (b / 2) * 2 + differ (suc a % 2) (b % 2)
bit_xor_digit a b = omega (
  arith,
  bit_xor-bitwise (suc a) b,
  bit_xor-bitwise (suc a / 2) (b / 2),
  xor_digits_enough a (suc a / 2) (suc a / 2) (b / 2) (omega arith) (omega arith),
)

differ_one : (x : ℕ) → x < 2 → differ x 1 ≡ 1 - x
differ_one zero h = refl
differ_one (suc zero) h = refl
differ_one (suc (suc x)) h = absurd (omega arith)

-- Exclusive or with `k` ones turns every digit round.
pub bit_xor_ones : (k x : ℕ) → x < 2 ^ k → bit_xor x (2 ^ k - 1) ≡ 2 ^ k - 1 - x
bit_xor_ones k zero h = omega (arith, bit_xor-zero_left (2 ^ k - 1))
bit_xor_ones zero (suc x) h = absurd (omega arith)
bit_xor_ones (suc k) (suc x) h =
    let p = two_pow_suc k in
    let pos = pow_pos 2 k (omega arith) in
    let halved : (2 ^ suc k - 1) / 2 ≡ 2 ^ k - 1 = omega arith in
    let odd : (2 ^ suc k - 1) % 2 ≡ 1 = omega arith in
    let digit = bit_xor_digit x (2 ^ suc k - 1) in
    let below = differ_one (suc x % 2) (omega arith) in
    rw (digit, halved, odd, below) (omega (arith, bit_xor_ones k (suc x / 2) (omega arith)))
