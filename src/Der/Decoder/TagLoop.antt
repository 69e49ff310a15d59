-- ===== src/Der/Decoder/TagLoop.antt =====
-- The first octet of a tag, and the loop over the groups of a long tag.
use securepath.Base.{
  ℕ, zero, suc, ◌+◌, ◌*◌, ◌/◌, ◌%◌, ◌^◌, ◌≤◌, ◌<◌, ◌≡◌, refl, subst, bit_or, Bool, true, false,
  List, [], ◌∷◌, ◌++◌, arith, All, length, ◌==◌, if◌then◌else◌, holds_below, holds_below_at, ==_iff,
}
use securepath.Der.Octets.Digits.{digits}
use securepath.Der.Encoder.{tag_first_byte}
use securepath.Der.Encoder.Output.{marked}
use securepath.Der.Decoder.{pure, ◌>>=◌, read_octet, long_tag_loop}
use securepath.Der.Decoder.Gives.{Gives, Gives-pure, Gives-bind, Gives-octet}
use native.Mathlib.Nat.{pow-suc}

-- The parts of the first octet of a tag.
first_plain : (x : ℕ) → x < 128 → bit_or (x / 32 * 2 ^ 6) (x % 32) % 256 ≡ x / 32 * 64 + x % 32
unfolding holds_below
first_plain x h = (==_iff _ _).0 (
    holds_below_at (λ x. bit_or (x / 32 * 2 ^ 6) (x % 32) % 256 == x / 32 * 64 + x % 32) 128 x h
      refl)

first_constructed :
    (x : ℕ) → x < 128 → bit_or (x / 32 * 64 + x % 32) 0x20 ≡ x / 32 * 64 + 32 + x % 32
unfolding holds_below
first_constructed x h = (==_iff _ _).0 (
    holds_below_at (λ x. bit_or (x / 32 * 64 + x % 32) 0x20 == x / 32 * 64 + 32 + x % 32) 128 x h
      refl)

tag_first_byte_lem :
    (c t : ℕ) (k : Bool)
    → c < 4
    → t < 32
    → tag_first_byte c t k ≡ c * 64 + (if k then 32 else 0) + t
unfolding tag_first_byte
tag_first_byte_lem c t k hc ht =
    let x = c * 32 + t in
    let class : x / 32 ≡ c = omega arith in
    let number : x % 32 ≡ t = omega arith in
    let small : x < 128 = omega arith in
    let plain =
      subst (λ n. bit_or (c * 2 ^ 6) n % 256 ≡ c * 64 + n) number
        (subst (λ n. bit_or (n * 2 ^ 6) (x % 32) % 256 ≡ n * 64 + x % 32) class
          (first_plain x small)) in
    let full =
      subst (λ n. bit_or (c * 64 + n) 0x20 ≡ c * 64 + 32 + n) number
        (subst (λ n. bit_or (n * 64 + x % 32) 0x20 ≡ n * 64 + 32 + x % 32) class
          (first_constructed x small)) in
    ground (arith, plain, full)

pub record FirstByte (b c t : ℕ) (k : Bool) : Type 0 where
  pub octet : b < 256
  pub number : b % 32 ≡ t
  pub class : b / 2 ^ 6 ≡ c
  pub form : (b / 32 % 2 == 1) ≡ k

FirstByte-parts :
    (c t : ℕ) (k : Bool) → c < 4 → t < 32 → FirstByte (c * 64 + (if k then 32 else 0) + t) c t k
FirstByte-parts c t true hc ht = record {
  octet = omega arith;
  number = omega arith;
  class = omega arith;
  form = ground arith;
}
FirstByte-parts c t false hc ht = record {
  octet = omega arith;
  number = omega arith;
  class = omega arith;
  form = ground arith;
}

pub first_byte : (c t : ℕ) (k : Bool) → c < 4 → t < 32 → FirstByte (tag_first_byte c t k) c t k
first_byte c t k hc ht = rw (tag_first_byte_lem c t k hc ht) (FirstByte-parts c t k hc ht)

-- The number that groups of seven bits stand for, after `ret`.
abbrev pub tag_value : ℕ → List ℕ → ℕ
tag_value ret [] = ret
tag_value ret (d ∷ ds) = tag_value (ret * 128 + d) ds

tag_value-le : (ret : ℕ) (ds : List ℕ) → ret ≤ tag_value ret ds
tag_value-le ret [] = omega arith
tag_value-le ret (d ∷ ds) = omega (arith, tag_value-le (ret * 128 + d) ds)

tag_value_append :
    (ret : ℕ) (ds : List ℕ) (d : ℕ) → tag_value ret (ds ++ d ∷ []) ≡ tag_value ret ds * 128 + d
tag_value_append ret [] d = refl
tag_value_append ret (x ∷ ds) d = tag_value_append (ret * 128 + x) ds d

pub tag_value-digits : (n v : ℕ) → v < 128 ^ n → tag_value 0 (digits 128 n v) ≡ v
tag_value-digits zero v h = omega arith
tag_value-digits (suc n) v h =
    let ih = tag_value-digits n (v / 128) (omega (arith, pow-suc 128 n)) in
    omega (arith, tag_value_append 0 (digits 128 n (v / 128)) (v % 128))

long_tag_last :
    (left ret d : ℕ)
    → d < 128
    → ret * 128 + d < 2 ^ 64
    → long_tag_loop left ret d ≡ pure (ret * 128 + d)
unfolding long_tag_loop
long_tag_last zero ret d h fits =
    let stop : (d / 128 % 2 == 1) ≡ false = ground arith in
    let whole : ret * 2 ^ 7 % 2 ^ 64 ≡ ret * 128 = omega arith in rw (stop, whole)
long_tag_last (suc left) ret d h fits =
    let stop : (d / 128 % 2 == 1) ≡ false = ground arith in
    let whole : ret * 2 ^ 7 % 2 ^ 64 ≡ ret * 128 = omega arith in rw (stop, whole)

long_tag_next :
    (left ret d : ℕ)
    → d < 128
    → ret * 128 + d < 2 ^ 64
    → long_tag_loop (suc left) ret (d + 128) ≡ (read_octet >>= long_tag_loop left (ret * 128 + d))
unfolding long_tag_loop
long_tag_next left ret d h fits =
    let more : ((d + 128) / 128 % 2 == 1) ≡ true = ground arith in
    let whole : ret * 2 ^ 7 % 2 ^ 64 + (d + 128) % 128 ≡ ret * 128 + d = omega arith in
    rw (more, whole)

-- The loop on marked groups, as many as there are rounds left and one.
tag_loop :
    (left ret d : ℕ) (ds : List ℕ)
    → All (λ t. t < 128) (d ∷ ds)
    → length ds ≤ left
    → tag_value ret (d ∷ ds) < 2 ^ 64
    → Gives (read_octet >>= long_tag_loop left ret) (marked (d ∷ ds)) (tag_value ret (d ∷ ds))
tag_loop left ret d [] hs le fits =
    Gives-bind (long_tag_loop left ret) (d ∷ []) [] (Gives-octet d)
      (rw (long_tag_last left ret d hs.0 fits) (Gives-pure _))
tag_loop zero ret d (c ∷ ds) hs le fits = absurd (omega arith)
tag_loop (suc left) ret d (c ∷ ds) hs le fits =
    let small = tag_value-le (ret * 128 + d) (c ∷ ds) in
    Gives-bind (long_tag_loop (suc left) ret) ((d + 128) ∷ []) (marked (c ∷ ds))
      (Gives-octet (d + 128))
      (rw (long_tag_next left ret d hs.0 (omega arith))
        (tag_loop left (ret * 128 + d) c ds hs.1 (omega arith) fits))

pub tag_loop_list :
    (ds : List ℕ)
    → 0 < length ds
    → All (λ t. t < 128) ds
    → length ds ≤ 10
    → tag_value 0 ds < 2 ^ 64
    → Gives (read_octet >>= long_tag_loop 9 0) (marked ds) (tag_value 0 ds)
tag_loop_list [] some hs le fits = absurd (omega arith)
tag_loop_list (d ∷ ds) some hs le fits = tag_loop 9 0 d ds hs (omega arith) fits
