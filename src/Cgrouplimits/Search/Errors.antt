-- ===== src/Cgrouplimits/Search/Errors.antt =====
-- What is left of the flag and of the error after the rounds of a search.
use mathlib.Core.List.{foldl, Memᴰ}
use procstats.Base.{
  ◌≡◌, ◌⊎◌, inl, inr, refl, ◌∙◌, Bool, true, false, List, [], ◌∷◌, Option, none, some, All, Result,
  ok, err,
}
use procstats.Cgrouplimits.MemLimit.{keep_first}
use procstats.Cgrouplimits.Search.{Search, search_round}

abbrev or_else : {E : Type 0} → Option E → Option E → Option E
or_else none o = o
or_else (some e) o = some e

or_else_keep :
    {E : Type 0} (o : Option E) (e : E) (o' : Option E)
    → or_else (keep_first true o e) o' ≡ or_else o (some e)
or_else_keep none e o' = refl
or_else_keep (some f) e o' = refl

module _ {E A : Type 0} where
  abbrev pub IsFailed : Result E A → Type 0
  IsFailed (err e) = Unit
  IsFailed (ok v) = ⊥

  -- The first error among reads of which all fail.
  abbrev pub first_error : List (Result E A) → Option E
  first_error [] = none
  first_error (err e ∷ rs) = some e
  first_error (ok v ∷ rs) = none

  pub first_error-some :
      (r : Result E A) (rs : List (Result E A))
      → All IsFailed (r ∷ rs)
      → (e : E) × (first_error (r ∷ rs) ≡ some e)
  first_error-some (err e) rs h = (e, refl)
  first_error-some (ok v) rs (h, _) = absurd h

-- The variables while every read has failed.
abbrev pub failing : {L S E : Type 0} → L → S → Option E → Search L S E
failing n stats o = record {
  min_limit = n;
  min_stats = stats;
  all_failed = true;
  leaf_cg_read_err = o;
}

module _ {R L S E : Type 0} (counts : R → Bool) (keep : R → L) (lt : L → L → Bool) where
  abbrev rounds : List (Result E (S × R)) → Search L S E → Search L S E
  rounds rs s = foldl (λ t r. search_round counts keep lt r t) s rs

  -- What is left of the flag and of the error, where every read before had failed with `o` the first.
  abbrev pub Left : List (Result E (S × R)) → Option E → Search L S E → Type 0
  Left rs o t =
      (All IsFailed rs × (t.all_failed ≡ true) × (t.leaf_cg_read_err ≡ or_else o (first_error rs)))
      ⊎ ((t.all_failed ≡ false) × (v : S × R) × Memᴰ (ok v) rs)

  rounds_read :
      (rs : List (Result E (S × R))) (s : Search L S E)
      → s.all_failed ≡ false
      → (rounds rs s).all_failed ≡ false
  unfolding search_round
  rounds_read [] s h = h
  rounds_read (err e ∷ rs) s h = rounds_read rs (search_round counts keep lt (err e) s) h
  rounds_read (ok v ∷ rs) s h = rounds_read rs (search_round counts keep lt (ok v) s) refl

  pub rounds-Left :
      (rs : List (Result E (S × R))) (n : L) (stats : S) (o : Option E)
      → Left rs o (rounds rs (failing n stats o))
  unfolding search_round
  rounds-Left [] n stats none = inl (tt, refl, refl)
  rounds-Left [] n stats (some e) = inl (tt, refl, refl)
  rounds-Left (ok v ∷ rs) n stats o = inr (
    rounds_read rs (search_round counts keep lt (ok v) (failing n stats o)) refl,
    v,
    Memᴰ.head refl,
  )
  rounds-Left (err e ∷ rs) n stats o = elim (rounds-Left rs n stats (keep_first true o e)) [
    | inl (h, t, x) ↦ inl ((tt, h), t, x ∙ or_else_keep o e (first_error rs))
    | inr (f, v, m) ↦ inr (f, v, Memᴰ.tail m)
  ]
