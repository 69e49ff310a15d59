-- ===== src/Base/Results.antt =====
-- The result of an operation that may throw: the exception is a value of `E`.
use mathlib.Core.Path.{◌≡◌, refl, ap}
use mathlib.Core.Logic.{◌⊎◌, inl, inr}
use mathlib.Core.Bool.{Bool, true, false}
use native.Mathlib.Omega.{arith}

pub data Result (E : Type 0) (A : Type 0) : Type 0 where
  ok : A → Result E A
  err : E → Result E A

infixl 5 ◌>>=◌ ◌>>◌
abbrev pub ◌>>=◌ : {E A B : Type 0} → Result E A → (A → Result E B) → Result E B
ok a >>= f = f a
err e >>= f = err e

abbrev pub ◌>>◌ : {E B : Type 0} → Result E (Unit {0}) → Result E B → Result E B
m >> k = m >>= λ _. k

-- `if(!test) throw e;`
abbrev pub guard : {E : Type 0} → Bool → E → Result E (Unit {0})
guard true e = ok tt
guard false e = err e

pub Result-cases :
    {E A : Type 0} (r : Result E A) → ((a : A) × (r ≡ ok a)) ⊎ ((e : E) × (r ≡ err e))
Result-cases (ok a) = inl (a, refl)
Result-cases (err e) = inr (e, refl)

-- A chain of steps that returns has passed its first step.
pub bind_passes :
    {E A B : Type 0} {x : B} (m : Result E A) (f : A → Result E B)
    → (m >>= f) ≡ ok x
    → (v : A) × (m ≡ ok v) × (f v ≡ ok x)
bind_passes (ok v) f h = (v, refl, h)
bind_passes (err e) f h = absurd (ground (arith, h))

abbrev pub ok_or : {E A : Type 0} → A → Result E A → A
ok_or d (ok x) = x
ok_or d (err e) = d

pub ok_same : {E A : Type 0} {x y : A} → ◌≡◌ {A = Result E A} (ok x) (ok y) → x ≡ y
ok_same {x} h = ap (ok_or x) h
