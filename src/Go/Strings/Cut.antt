-- ===== src/Go/Strings/Cut.antt =====
-- What `cut`, `lines` and `split` give, for separators of one byte and in general.
use mathlib.Core.Option
use procstats.Base.{
  ℕ, suc, [], ◌∷◌, ◌++◌, none, some, ◌≡◌, ◌≢◌, refl, ap, ◌⊎◌, inl, inr, arith, ◌==◌, Bytes, All,
  Bool-cases,
}
use procstats.Go.Strings.{strip_prefix, cut, split, split_n, lines, push_first}

-- A text without the byte `k`.
abbrev pub Lacks : ℕ → Bytes → Type 0
Lacks k = All (λ c. c ≢ k)

module _ (k : ℕ) where
  pub cut_at : (s : Bytes) → cut (k ∷ []) (k ∷ s) ≡ some ([], s)
  unfolding cut strip_prefix
  cut_at s = ground arith

  pub cut_past :
      (c : ℕ) (s : Bytes)
      → c ≢ k
      → cut (k ∷ []) (c ∷ s) ≡ Option.map (push_first c) (cut (k ∷ []) s)
  unfolding cut strip_prefix
  cut_past c s h = ground arith

  -- A text is cut at the first `k`.
  pub cut-append : (a b : Bytes) → Lacks k a → cut (k ∷ []) (a ++ k ∷ b) ≡ some (a, b)
  cut-append [] b h = cut_at b
  cut-append (c ∷ a) b (hc, ha) = rw (cut_past c _ hc, cut-append a b ha)

  -- What `cut` finds: the text is cut at the first `k`, if there is one.
  pub cut_sound :
      (s : Bytes)
      → ((cut (k ∷ []) s ≡ none) × Lacks k s)
        ⊎ ((a : Bytes) × (b : Bytes) × (cut (k ∷ []) s ≡ some (a, b))
            × (s ≡ a ++ k ∷ b)
            × Lacks k a)
  cut_sound [] = inl ((unfold cut in refl), tt)
  cut_sound (c ∷ s) = elim (Bool-cases (c == k)) [
    | inl e ↦ let same : c ≡ k = ground arith in inr ([], s, rw same (cut_at s), rw same refl, tt)
    | inr n ↦ let other : c ≢ k = ground arith in later other (cut_sound s)
  ]
    where
      later :
          c ≢ k
          → ((cut (k ∷ []) s ≡ none) × Lacks k s)
            ⊎ ((a : Bytes) × (b : Bytes) × (cut (k ∷ []) s ≡ some (a, b))
                × (s ≡ a ++ k ∷ b)
                × Lacks k a)
          → ((cut (k ∷ []) (c ∷ s) ≡ none) × Lacks k (c ∷ s))
            ⊎ ((a : Bytes) × (b : Bytes) × (cut (k ∷ []) (c ∷ s) ≡ some (a, b))
                × (c ∷ s ≡ a ++ k ∷ b)
                × Lacks k a)
      later other (inl (e, l)) = inl (rw (cut_past c s other, e), (other, l))
      later other (inr (a, b, e, q, l)) =
          inr (c ∷ a, b, rw (cut_past c s other, e), ap (◌∷◌ c) q, (other, l))

-- The first line of a text is the text up to the first newline.
pub lines-append :
    (l s : Bytes) → Lacks b'\n' l → lines (l ++ b'\n' ∷ s) ≡ (l ++ b'\n' ∷ []) ∷ lines s
unfolding lines
lines-append [] s h = refl
lines-append (c ∷ l) s (hc, hl) = ground (arith, lines-append l s hl)

-- The first part of a text is the text up to the first separator.
pub split-append : (k : ℕ) (a s : Bytes) → Lacks k a → split k (a ++ k ∷ s) ≡ a ∷ split k s
unfolding split
split-append k [] s h = ground arith
split-append k (c ∷ a) s (hc, ha) = ground (arith, split-append k a s ha)

-- A text without the separator is its only part.
pub split-Lacks : (k : ℕ) (a : Bytes) → Lacks k a → split k a ≡ a ∷ []
unfolding split
split-Lacks k [] h = refl
split-Lacks k (c ∷ a) (hc, ha) = ground (arith, split-Lacks k a ha)

-- `SplitN` takes the parts off the front.
pub split_n-append :
    (n k : ℕ) (a b : Bytes)
    → Lacks k a
    → split_n (suc (suc n)) (k ∷ []) (a ++ k ∷ b) ≡ a ∷ split_n (suc n) (k ∷ []) b
unfolding split_n
split_n-append n k a b h = rw (cut-append k a b h, split_n)
