-- ===== src/Util/Hex.antt =====
-- securepath/util/conversions.cpp: octets as hexadecimal digits.
mod Tests
use securepath.Base.{
  ℕ, zero, suc, ◌+◌, ◌-◌, ◌*◌, ◌/◌, ◌%◌, ◌^◌, ◌<◌, ◌≡◌, refl, ap, Bool, true, false, ◌&&◌, List, [],
  ◌∷◌, All, arith, leb, ◌==◌, if◌then◌else◌, Result, ok, err, ◌>>=◌, guard, length, ==_iff,
  holds_below, holds_below_at, Bool-cases, inl, inr, ◌≤◌, get_or,
}

pub data HexError : Type 0 where
  invalid_hex_string invalid_hex_string_length : HexError

-- "0123456789ABCDEF"
unfoldable pub values : List ℕ
values = 48 ∷ 49 ∷ 50 ∷ 51 ∷ 52 ∷ 53 ∷ 54 ∷ 55 ∷ 56 ∷ 57 ∷ 65 ∷ 66 ∷ 67 ∷ 68 ∷ 69 ∷ 70 ∷ []

-- `e >> 4` and `e & 0x0F` of an octet.
unfoldable pub to_hex : List ℕ → List ℕ
unfolding values
to_hex [] = []
to_hex (e ∷ v) = get_or values (e / 2 ^ 4) 0 ∷ get_or values (e % 2 ^ 4) 0 ∷ to_hex v

unfoldable pub get_value : ℕ → Result HexError ℕ
get_value c =
    if leb 48 c && leb c 57
    then ok (c - 48)
    else if leb 65 c && leb c 70
    then ok (c - 65 + 10)
    else if leb 97 c && leb c 102
    then ok (c - 97 + 10)
    else err invalid_hex_string

-- The loop, two characters a round; the length is even. `v1 << 4 | v2` on digits is a sum.
unfoldable pub hex_pairs : List ℕ → Result HexError (List ℕ)
hex_pairs [] = ok []
hex_pairs (c ∷ []) = ok []
hex_pairs (c ∷ d ∷ s) = do
  v1 ← get_value c
  v2 ← get_value d
  rest ← hex_pairs s
  ok ((v1 * 2 ^ 4 + v2) % 256 ∷ rest)

unfoldable pub from_hex : List ℕ → Result HexError (List ℕ)
unfolding hex_pairs
from_hex s = if length s % 2 == 0 then hex_pairs s else err invalid_hex_string_length

-- A digit is read back.
digit_test : ℕ → Result HexError ℕ → Bool
digit_test n (ok v) = v == n
digit_test n (err e) = false

digit_value : (n : ℕ) (r : Result HexError ℕ) → digit_test n r ≡ true → r ≡ ok n
unfolding digit_test
digit_value n (ok v) h = ap ok ((==_iff v n).0 h)
digit_value n (err e) h = absurd (ground (arith, h))

get_value-values : (n : ℕ) → n < 16 → get_value (get_or values n 0) ≡ ok n
unfolding holds_below get_value values digit_test
get_value-values n h =
    digit_value n _ (holds_below_at (λ x. digit_test x (get_value (get_or values x 0))) 16 n h refl)

length-to_hex : (v : List ℕ) → length (to_hex v) ≡ 2 * length v
unfolding to_hex
length-to_hex [] = refl
length-to_hex (e ∷ v) = omega (arith, length-to_hex v)

hex_pairs-to_hex : (v : List ℕ) → All (λ e. e < 256) v → hex_pairs (to_hex v) ≡ ok v
unfolding hex_pairs to_hex
hex_pairs-to_hex [] h = refl
hex_pairs-to_hex (e ∷ v) (octet, octets) =
    let whole : (e / 2 ^ 4 * 2 ^ 4 + e % 2 ^ 4) % 256 ≡ e = omega arith in
    rw
      (
        get_value-values (e / 2 ^ 4) (omega arith),
        get_value-values (e % 2 ^ 4) (omega arith),
        hex_pairs-to_hex v octets,
      )
      (ap (λ t. ok (t ∷ v)) whole)

-- Octets written in hexadecimal are read back.
pub from_hex-to_hex : (v : List ℕ) → All (λ e. e < 256) v → from_hex (to_hex v) ≡ ok v
unfolding from_hex
from_hex-to_hex v h =
    let size = length-to_hex v in
    let even : (length (to_hex v) % 2 == 0) ≡ true = ground arith in rw even (hex_pairs-to_hex v h)
