-- ===== src/Der/Octets/Digits.antt =====
-- `octet_loop` writes the digits of a number, most significant first, and `decode_from_octets` reads
-- them back.
use securepath.Base.{
  ℕ, zero, suc, ◌+◌, ◌*◌, ◌/◌, ◌%◌, ◌^◌, ◌<◌, ◌≡◌, refl, ap, sym, ◌∙◌, List, [], ◌∷◌, ◌++◌, arith,
  All, length, length-append, All-append, lt→ltb, get_or,
}
use securepath.Base.Bits.{bit_or_0, two_pow_mono, two_pow_mul}
use securepath.Der.Octets.{bits_from_position, octet_loop, shift_in, decode_from_octets}
use native.Mathlib.Nat.{div-eq_of_lt, div-div-eq-div-mul, pow-suc, pow-zero, div-one}
use native.Mathlib.Nat.{mod-eq_of_lt, mod-lt, pow-succ', zero-mod}
use native.Mathlib.Decide.{dec_lt}

-- The digits of `v` to the base `b`, the lowest last.
abbrev pub digits : ℕ → ℕ → ℕ → List ℕ
digits b zero v = []
digits b (suc n) v = digits b n (v / b) ++ (v % b) ∷ []

-- Digits taken from the top instead, as the code finds them.
abbrev pub digits_down : ℕ → ℕ → ℕ → List ℕ
digits_down b zero v = []
digits_down b (suc n) v = v / b ^ n % b ∷ digits_down b n v

digits_down_last : (b n v : ℕ) → digits_down b (suc n) v ≡ digits_down b n (v / b) ++ (v % b) ∷ []
digits_down_last b zero v = rw (pow-zero b, div-one v)
digits_down_last b (suc n) v =
    let down : v / b ^ suc n ≡ v / b / b ^ n =
      ap (λ t. v / t) (pow-succ' b n) ∙ sym (div-div-eq-div-mul v b (b ^ n)) in
    cc (down, digits_down_last b n v)

pub digits_down-digits : (b n v : ℕ) → digits_down b n v ≡ digits b n v
digits_down-digits b zero v = refl
digits_down-digits b (suc n) v =
    digits_down_last b n v ∙ ap (λ t. t ++ (v % b) ∷ []) (digits_down-digits b n (v / b))

-- A shift by the width or more finds nothing, as does a test for it.
pub bits_from_position_lem :
    (w v n k : ℕ) → v < 2 ^ w → bits_from_position w v (n * k) k ≡ v / (2 ^ k) ^ n % 2 ^ k
unfolding bits_from_position
bits_from_position_lem w v n k h = elim (dec_lt (n * k) w) [
  | yes inside ↦ rw (lt→ltb _ _ inside, two_pow_mul n k)
  | no outside ↦
      let small : v < 2 ^ (n * k) = omega (arith, two_pow_mono w (n * k) (omega arith)) in
      let gone : v / (2 ^ k) ^ n ≡ 0 = rw (← two_pow_mul n k) (div-eq_of_lt small) in
      rw gone (ground arith)
]

pub octet_loop-digits : (w v n : ℕ) → v < 2 ^ w → octet_loop w v 8 0 n ≡ digits 256 n v
unfolding octet_loop
octet_loop-digits w v n h = go n ∙ digits_down-digits 256 n v
  where
    go : (m : ℕ) → octet_loop w v 8 0 m ≡ digits_down 256 m v
    go zero = refl
    go (suc m) =
        cc (bits_from_position_lem w v m 8 h, bit_or_0 (v / 256 ^ m % 256) (omega arith), go m)

pub shift_in_append :
    (w ret : ℕ) (xs : List ℕ) (d : ℕ)
    → shift_in w ret (xs ++ d ∷ []) ≡ shift_in w ret xs * 256 % 2 ^ w + d
unfolding shift_in
shift_in_append w ret [] d = refl
shift_in_append w ret (x ∷ xs) d = shift_in_append w (ret * 2 ^ 8 % 2 ^ w + x) xs d

decode_from_octets_append :
    (w : ℕ) (xs : List ℕ) (d : ℕ)
    → decode_from_octets w (xs ++ d ∷ []) ≡ decode_from_octets w xs * 256 % 2 ^ w + d
unfolding decode_from_octets
decode_from_octets_append w [] d = omega (arith, zero-mod (2 ^ w))
decode_from_octets_append w (x ∷ xs) d = shift_in_append w x xs d

pub decode_digits :
    (w n v : ℕ) → v < 256 ^ n → v < 2 ^ w → decode_from_octets w (digits 256 n v) ≡ v
decode_digits w zero v h hw = unfold decode_from_octets in (omega arith)
decode_digits w (suc n) v h hw =
    let ih = decode_digits w n (v / 256) (omega (arith, pow-suc 256 n)) (omega arith) in
    let whole : v / 256 * 256 % 2 ^ w ≡ v / 256 * 256 = mod-eq_of_lt (omega arith) in
    rw (decode_from_octets_append w (digits 256 n (v / 256)) (v % 256), ih, whole) (omega arith)

pub length-digits : (b n v : ℕ) → length (digits b n v) ≡ n
length-digits b zero v = refl
length-digits b (suc n) v =
    omega (arith, length-append (digits b n (v / b)) ((v % b) ∷ []), length-digits b n (v / b))

pub digits-All : (b n v : ℕ) → 0 < b → All (λ d. d < b) (digits b n v)
digits-All b zero v h = tt
digits-All b (suc n) v h =
    All-append _ (digits b n (v / b)) _ (digits-All b n (v / b) h, (mod-lt v h, tt))

-- The first digit is the number over the highest power of the base.
pub digits_first : (b n v d : ℕ) → get_or (digits b (suc n) v) 0 d ≡ v / b ^ n % b
digits_first b n v d = rw (← digits_down-digits b (suc n) v)
