-- ===== src/Go/Strings/Prefix.antt =====
-- `strings.HasPrefix` and the text behind the prefix.
use mathlib.Core.Path.{ap₂}
use procstats.Base.{◌≡◌, ◌↔◌, refl, true, [], ◌∷◌, ◌++◌, arith, Bytes, ◌==◌, Bool-cases, inl, inr}
use procstats.Go.Strings.{has_prefix, strip_prefix}

has_prefix-append : (p s : Bytes) → has_prefix p (p ++ s) ≡ true
unfolding has_prefix strip_prefix
has_prefix-append [] s = refl
has_prefix-append (x ∷ p) s = ground (arith, has_prefix-append p s)

has_prefix-split : (p s : Bytes) → has_prefix p s ≡ true → (rest : Bytes) × (s ≡ p ++ rest)
unfolding has_prefix strip_prefix
has_prefix-split [] s h = (s, refl)
has_prefix-split (x ∷ p) [] h = cc
has_prefix-split (x ∷ p) (c ∷ s) h = elim (Bool-cases (x == c)) [
  | inr f ↦ absurd (ground arith)
  | inl t ↦
      let (rest, e) = has_prefix-split p s (rw t at h) in
      (rest, ap₂ (λ y ys. y ∷ ys) (ground arith) e)
]

-- A text has the prefix exactly if it is the prefix and a rest.
pub has_prefix_iff : (p s : Bytes) → (has_prefix p s ≡ true) ↔ ((rest : Bytes) × (s ≡ p ++ rest))
has_prefix_iff p s = (has_prefix-split p s, λ (rest, e). rw e (has_prefix-append p rest))
