-- ===== src/Common/Results.antt =====
-- Fallible results, and pointers into the program's state.
use mathlib.Core.Logic.{◌⊎◌, inl, inr}
use mathlib.Core.Path.{◌≡◌, refl}
use mathlib.Core.Option.{Option, none, some}

-- Go's `(value, error)` where the value counts only if the error is nil.
pub data Result {ℓ} (E A : Type ℓ) : Type ℓ where
  ok : A → Result E A
  err : E → Result E A

-- A pointer to a value of type `A` in a state `S`. Two objects that share a pointer share the value.
pub record Ref (S A : Type 0) : Type 0 where
  pub load : S → A
  pub store : A → S → S

-- What is stored is what is read back.
pub record IsRef {S A : Type 0} (r : Ref S A) : Type 0 where
  pub load-store : (a : A) (s : S) → r.load (r.store a s) ≡ a

-- A chain of steps that may not happen.
infixl 5 ◌>>=◌
abbrev pub ◌>>=◌ {ℓ κ} : {A : Type ℓ} {B : Type κ} → Option A → (A → Option B) → Option B
none >>= f = none
some a >>= f = f a

pub >>=-eq-some {ℓ κ} :
    {A : Type ℓ} {B : Type κ} (o : Option A) (f : A → Option B) {b : B}
    → (o >>= f) ≡ some b
    → (a : A) × (o ≡ some a) × (f a ≡ some b)
>>=-eq-some none f h = cc
>>=-eq-some (some a) f h = (a, refl, h)

pub Result-cases {ℓ} :
    {E A : Type ℓ} (r : Result E A) → ((a : A) × (r ≡ ok a)) ⊎ ((e : E) × (r ≡ err e))
Result-cases (ok a) = inl (a, refl)
Result-cases (err e) = inr (e, refl)
