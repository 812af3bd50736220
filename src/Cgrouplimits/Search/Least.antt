-- ===== src/Cgrouplimits/Search/Least.antt =====
-- The rounds of a search keep the statistics with the least limit.
use mathlib.Core.Path.{subst}
use mathlib.Core.List.{foldl, Memᴰ}
use procstats.Base.{
  ◌≡◌, ◌⊎◌, inl, inr, refl, sym, Bool, true, false, ◌&&◌, List, [], ◌∷◌, arith, All, Result, ok,
  err, Bool-cases, if◌then◌else◌,
}
use procstats.Cgrouplimits.Search.{Search, search_round}

-- A strict order.
pub record IsStrict {L : Type 0} (lt : L → L → Bool) : Type 0 where
  pub irrefl : (a : L) → lt a a ≡ false
  pub trans : (a b c : L) → lt a b ≡ true → lt b c ≡ true → lt a c ≡ true

module _ {L : Type 0} (lt : L → L → Bool) (strict : IsStrict lt) where
  abbrev pub NoMore : L → L → Type 0
  NoMore n m = (n ≡ m) ⊎ (lt n m ≡ true)

  pub NoMore-trans : (a b c : L) → NoMore a b → NoMore b c → NoMore a c
  NoMore-trans a b c (inl e) h = subst (λ x. NoMore x c) (sym e) h
  NoMore-trans a b c (inr h) (inl e) = subst (λ x. NoMore a x) e (inr h)
  NoMore-trans a b c (inr h) (inr k) = inr (strict.trans a b c h k)

  pub lt-NoMore : (v n m : L) → NoMore n m → lt v m ≡ false → lt v n ≡ false
  lt-NoMore v n m (inl e) h = subst (λ x. lt v x ≡ false) (sym e) h
  lt-NoMore v n m (inr k) h = elim (Bool-cases (lt v n)) [
    | inr f ↦ f
    | inl t ↦ absurd (ground (arith, strict.trans v n m t k, h))
  ]

module _ {R L S E : Type 0} (counts : R → Bool) (keep : R → L) (lt : L → L → Bool)
    (strict : IsStrict lt) where
  -- The limit of a read is none, or not less than `n`.
  abbrev pub IsBelow : L → Result E (S × R) → Type 0
  IsBelow n (err e) = Unit
  IsBelow n (ok (s, r)) = (counts r ≡ false) ⊎ (lt (keep r) n ≡ false)

  abbrev pub rounds : List (Result E (S × R)) → Search L S E → Search L S E
  rounds rs s = foldl (λ t r. search_round counts keep lt r t) s rs

  -- The statistics that are kept: those from before, or of a read that has this limit.
  abbrev pub IsKept : List (Result E (S × R)) → Search L S E → L → S → Type 0
  IsKept rs s limit stats =
      ((limit ≡ s.min_limit) × (stats ≡ s.min_stats))
      ⊎ ((r : R) × Memᴰ (ok (stats, r)) rs × (counts r ≡ true) × (keep r ≡ limit))

  round-NoMore :
      (r : Result E (S × R)) (s : Search L S E)
      → NoMore lt strict (search_round counts keep lt r s).min_limit s.min_limit
  unfolding search_round
  round-NoMore (err e) s = inl refl
  round-NoMore (ok (cg_stats, cg_lim)) s = ground arith

  round-IsBelow :
      (r : Result E (S × R)) (s : Search L S E)
      → IsBelow (search_round counts keep lt r s).min_limit r
  unfolding search_round
  round-IsBelow (err e) s = tt
  round-IsBelow (ok (cg_stats, cg_lim)) s = ground (arith, strict.irrefl (keep cg_lim))

  rounds-NoMore :
      (rs : List (Result E (S × R))) (s : Search L S E)
      → NoMore lt strict (rounds rs s).min_limit s.min_limit
  rounds-NoMore [] s = inl refl
  rounds-NoMore (r ∷ rs) s =
      let t = search_round counts keep lt r s in
      NoMore-trans lt strict (rounds rs t).min_limit t.min_limit s.min_limit (rounds-NoMore rs t)
        (round-NoMore r s)

  IsBelow-NoMore :
      (n m : L) (r : Result E (S × R)) → NoMore lt strict n m → IsBelow m r → IsBelow n r
  IsBelow-NoMore n m (err e) h b = tt
  IsBelow-NoMore n m (ok (s, r)) h (inl b) = inl b
  IsBelow-NoMore n m (ok (s, r)) h (inr b) = inr (lt-NoMore lt strict (keep r) n m h b)

  pub rounds-IsBelow :
      (rs : List (Result E (S × R))) (s : Search L S E) → All (IsBelow (rounds rs s).min_limit) rs
  rounds-IsBelow [] s = tt
  rounds-IsBelow (r ∷ rs) s =
      let t = search_round counts keep lt r s in
      (
        IsBelow-NoMore (rounds rs t).min_limit t.min_limit r (rounds-NoMore rs t)
            (round-IsBelow r s),
        rounds-IsBelow rs t,
      )

  choice-IsKept :
      (least : Bool) (cg_stats : S) (cg_lim : R) (rs : List (Result E (S × R))) (s : Search L S E)
      → (counts cg_lim && lt (keep cg_lim) s.min_limit) ≡ least
      → IsKept
          (ok (cg_stats, cg_lim) ∷ rs)
          s
          (if least then keep cg_lim else s.min_limit)
          (if least then cg_stats else s.min_stats)
  choice-IsKept false cg_stats cg_lim rs s e = inl (refl, refl)
  choice-IsKept true cg_stats cg_lim rs s e = inr (cg_lim, Memᴰ.head refl, (ground arith), refl)

  abbrev KeptBy : List (Result E (S × R)) → Search L S E → Search L S E → Type 0
  KeptBy rs s t = IsKept rs s t.min_limit t.min_stats

  round-IsKept :
      (r : Result E (S × R)) (rs : List (Result E (S × R))) (s : Search L S E)
      → KeptBy (r ∷ rs) s (search_round counts keep lt r s)
  unfolding search_round
  round-IsKept (err e) rs s = inl (refl, refl)
  round-IsKept (ok (cg_stats, cg_lim)) rs s =
      choice-IsKept (counts cg_lim && lt (keep cg_lim) s.min_limit) cg_stats cg_lim rs s refl

  -- The rounds keep a least limit and its statistics.
  pub rounds-IsKept : (rs : List (Result E (S × R))) (s : Search L S E) → KeptBy rs s (rounds rs s)
  rounds-IsKept [] s = inl (refl, refl)
  rounds-IsKept (r ∷ rs) s =
      let t = search_round counts keep lt r s in
      elim (rounds-IsKept rs t) [
        | inr (v, m, c, e) ↦ inr (v, Memᴰ.tail m, c, e)
        | inl (l, m) ↦
            subst (λ n. IsKept (r ∷ rs) s n (rounds rs t).min_stats) (sym l)
              (subst (IsKept (r ∷ rs) s t.min_limit) (sym m) (round-IsKept r rs s))
      ]
