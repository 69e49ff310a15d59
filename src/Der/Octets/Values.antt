-- ===== src/Der/Octets/Values.antt =====
-- The value of any sequence of octets, and how much of it the first octet tells.
use securepath.Base.{
  ℕ, ◌+◌, ◌*◌, ◌%◌, ◌^◌, ◌≤◌, ◌<◌, ◌≡◌, refl, ◌∙◌, List, [], ◌∷◌, arith, All, length,
}
use securepath.Der.Octets.{shift_in, decode_from_octets}
use securepath.Base.Bits.{pow_pos}
use native.Mathlib.Nat.{mod-eq_of_lt, pow-suc, le_trans}

abbrev pub IsOctet : ℕ → Type 0
IsOctet b = b < 256

-- The value in base 256, most significant octet first.
abbrev pub be_value : List ℕ → ℕ
be_value [] = 0
be_value (b ∷ bs) = b * 256 ^ length bs + be_value bs

pub be_value-lt : (bs : List ℕ) → All IsOctet bs → be_value bs < 256 ^ length bs
be_value-lt [] h = omega arith
be_value-lt (b ∷ bs) (hb, hs) = rw (pow-suc 256 (length bs)) (grind (arith, be_value-lt bs hs))

room_for : (a p m : ℕ) → 0 < p → a * (p * 256) ≤ m → a * 256 ≤ m
room_for a p m h le = grind arith

next_octet : (ret b p : ℕ) → b < 256 → (ret * 256 + b + 1) * p ≤ (ret + 1) * (p * 256)
next_octet ret b p h = grind arith

shift_in_value :
    (w ret : ℕ) (bs : List ℕ)
    → All IsOctet bs
    → (ret + 1) * 256 ^ length bs ≤ 2 ^ w
    → shift_in w ret bs ≡ ret * 256 ^ length bs + be_value bs
unfolding shift_in
shift_in_value w ret [] hs h = omega arith
shift_in_value w ret (b ∷ bs) (hb, hs) h =
    let power = pow-suc 256 (length bs) in
    let room : (ret + 1) * (256 ^ length bs * 256) ≤ 2 ^ w = rw power at h in
    let rest =
      room_for (ret + 1) (256 ^ length bs) (2 ^ w) (pow_pos 256 (length bs) (omega arith)) in
    let whole : ret * 256 % 2 ^ w ≡ ret * 256 = mod-eq_of_lt (omega arith) in
    rw whole (
      shift_in_value w (ret * 256 + b) bs hs (le_trans (next_octet ret b (256 ^ length bs) hb) room)
      ∙ rw power (omega arith))

-- Octets that fit the width are read without loss.
pub decode_value :
    (w : ℕ) (bs : List ℕ)
    → All IsOctet bs
    → 256 ^ length bs ≤ 2 ^ w
    → decode_from_octets w bs ≡ be_value bs
unfolding decode_from_octets
decode_value w [] hs h = refl
decode_value w (b ∷ bs) (hb, hs) h =
    shift_in_value w b bs hs
      (grind (arith, pow-suc 256 (length bs), next_octet 0 b (256 ^ length bs)))
