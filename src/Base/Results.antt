-- ===== src/Base/Results.antt =====
-- Results of fallible code. Error texts are not modelled: an error is the place that made it.
use mathlib.Core.Path.{◌≡◌, refl, subst}
use native.Mathlib.Omega.{arith}
use mathlib.Core.Logic.{◌⊎◌, inl, inr}
use mathlib.Core.Bool.{Bool, true, false}
use mathlib.Core.Option.{Option, none, some}

pub data Result {ℓ} (E : Type ℓ) (A : Type ℓ) : Type ℓ where
  ok : A → Result E A
  err : E → Result E A

module _ {ℓ} {E : Type ℓ} where
  infixl 5 ◌>>=◌
  abbrev pub ◌>>=◌ : {A B : Type ℓ} → Result E A → (A → Result E B) → Result E B
  ok a >>= f = f a
  err e >>= f = err e

  -- The value of an `Option`, or the error `e`.
  abbrev pub require : {A : Type ℓ} → Option A → E → Result E A
  require none e = err e
  require (some a) e = ok a

  -- The error put into another type.
  abbrev pub map_err : {F A : Type ℓ} → (E → F) → Result E A → Result F A
  map_err f (ok a) = ok a
  map_err f (err e) = err (f e)

  -- Goes on if the test holds.
  abbrev pub check : Bool → E → Result E (Unit {ℓ})
  check true e = ok tt
  check false e = err e

module _ {ℓ} {E A : Type ℓ} where
  pub Result-cases : (m : Result E A) → ((e : E) × (m ≡ err e)) ⊎ ((a : A) × (m ≡ ok a))
  Result-cases (ok a) = inr (a, refl)
  Result-cases (err e) = inl (e, refl)

-- A postcondition of a successful result.
pub data Satisfies {ℓ κ} {E A : Type ℓ} (P : A → Type κ) : Result E A → Type (ℓ ⊔ κ) where
  holds : {a : A} → P a → Satisfies P (ok a)
  fails : {e : E} → Satisfies P (err e)

module _ {ℓ} {E : Type ℓ} where
  pub bind-Satisfies {κ ι} :
      {A B : Type ℓ} {Q : A → Type ι} {P : B → Type κ} {m : Result E A} {f : A → Result E B}
      → Satisfies Q m
      → ((a : A) → Q a → Satisfies P (f a))
      → Satisfies P (m >>= f)
  bind-Satisfies (holds {a} h) k = k a h
  bind-Satisfies fails k = fails

  -- The same where nothing is known of the first result.
  pub bind-Satisfies_any {κ} :
      {A B : Type ℓ} {P : B → Type κ} (m : Result E A) {f : A → Result E B}
      → ((a : A) → Satisfies P (f a))
      → Satisfies P (m >>= f)
  bind-Satisfies_any (ok a) k = k a
  bind-Satisfies_any (err e) k = fails

  pub Satisfies-ok {κ} :
      {A : Type ℓ} {P : A → Type κ} {m : Result E A} (a : A) → Satisfies P m → m ≡ ok a → P a
  Satisfies-ok {P} a (holds {a = b} h) e = let same : b ≡ a = ground arith in subst P same h
  Satisfies-ok a fails e = cc
