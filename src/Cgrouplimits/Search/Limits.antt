-- ===== src/Cgrouplimits/Search/Limits.antt =====
-- What `GetCgroupMemoryLimit` and `GetCgroupCPULimit` share: a loop that keeps only the least limit is a
-- search without statistics.
use mathlib.Core.Path.{subst}
use mathlib.Core.List.{foldl, Memᴰ}
use procstats.Base.{
  ◌≡◌, ◌⊎◌, inl, inr, refl, sym, ap, ◌∙◌, Bool, true, false, List, [], ◌∷◌, none, some, map, All,
  Result, ok, err,
}
use procstats.Cgrouplimits.Search.Errors.{
  IsFailed, first_error, first_error-some, failing, rounds-Left,
}
use procstats.Cgrouplimits.Search.Least
use procstats.Cgrouplimits.Search.Least.{IsStrict, rounds, rounds-IsBelow, rounds-IsKept}
use procstats.Cgrouplimits.Search.{Search, search_round}

module _ {E R : Type 0} where
  -- What is read of a cgroup beside empty statistics.
  abbrev pub as_read : Result E R → Result E (Unit {0} × R)
  as_read (ok v) = ok (tt, v)
  as_read (err e) = err e

  Mem-as_read :
      (u : Unit {0}) (v : R) (rs : List (Result E R))
      → Memᴰ (ok (u, v)) (map as_read rs)
      → Memᴰ (ok v) rs
  Mem-as_read u v [] m = elim m [ ]
  Mem-as_read u v (ok w ∷ rs) (Memᴰ.head e) = Memᴰ.head (cc)
  Mem-as_read u v (err x ∷ rs) (Memᴰ.head e) = cc
  Mem-as_read u v (ok w ∷ rs) (Memᴰ.tail m) = Memᴰ.tail (Mem-as_read u v rs m)
  Mem-as_read u v (err x ∷ rs) (Memᴰ.tail m) = Memᴰ.tail (Mem-as_read u v rs m)

  IsFailed-as_read : (rs : List (Result E R)) → All IsFailed (map as_read rs) → All IsFailed rs
  IsFailed-as_read [] h = tt
  IsFailed-as_read (ok v ∷ rs) (h, _) = absurd h
  IsFailed-as_read (err e ∷ rs) (_, h) = (tt, IsFailed-as_read rs h)

  first_error-as_read : (rs : List (Result E R)) → first_error (map as_read rs) ≡ first_error rs
  first_error-as_read [] = refl
  first_error-as_read (ok v ∷ rs) = refl
  first_error-as_read (err e ∷ rs) = refl

module _ {E F R L : Type 0} (counts : R → Bool) (keep : R → L) (lt : L → L → Bool) (leaf : E → F)
    (unlimited : L) where
  -- The limit of a read is none, or not less than `n`.
  abbrev pub IsBelow : L → Result E R → Type 0
  IsBelow n (err e) = Unit
  IsBelow n (ok v) = (counts v ≡ false) ⊎ (lt (keep v) n ≡ false)

  -- What the loop makes of the reads, from the cgroup outwards.
  pub data IsLeastOf (rs : List (Result E R)) : Result F L → Type 0 where
    -- None can be read: the error is that of the first.
    none_read : {e : E} → All IsFailed rs → first_error rs ≡ some e → IsLeastOf rs (err (leaf e))
    -- Some was read: no limit is less than the result, which is one of them unless there is none.
    least :
        {n : L} {v : R}
        → Memᴰ (ok v) rs
        → All (IsBelow n) rs
        → (n ≡ unlimited) ⊎ ((l : R) × Memᴰ (ok l) rs × (counts l ≡ true) × (keep l ≡ n))
        → IsLeastOf rs (ok n)

  -- A loop over variables `X` that does on the limits what a search does.
  pub record LimitLoop (X : Type 0) : Type 0 where
    pub round : Result E R → X → X
    pub found : X → Result F L
    pub as_search : X → Search L (Unit {0}) E
    pub start : X
    pub start_search : as_search start ≡ failing unlimited tt none
    pub round_search :
        (r : Result E R) (x : X)
        → as_search (round r x) ≡ search_round counts keep lt (as_read r) (as_search x)
    pub found_failed :
        (x : X) (e : E)
        → (as_search x).all_failed ≡ true
        → (as_search x).leaf_cg_read_err ≡ some e
        → found x ≡ err (leaf e)
    pub found_read :
        (x : X) → (as_search x).all_failed ≡ false → found x ≡ ok (as_search x).min_limit

  module _ (strict : IsStrict lt) {X : Type 0} (loop : LimitLoop X) where
    open loop use {round, found, as_search, start}

    abbrev pub after : List (Result E R) → X → X
    after rs x = foldl (λ t r. round r t) x rs

    after-search :
        (rs : List (Result E R)) (x : X)
        → as_search (after rs x) ≡ rounds counts keep lt strict (map as_read rs) (as_search x)
    after-search [] x = refl
    after-search (r ∷ rs) x =
        after-search rs (round r x)
        ∙ ap (rounds counts keep lt strict (map as_read rs)) (loop.round_search r x)

    -- The search that the loop does from its start.
    abbrev searched : List (Result E R) → Search L (Unit {0}) E
    searched rs = rounds counts keep lt strict (map as_read rs) (failing unlimited tt none)

    start-searched : (rs : List (Result E R)) → as_search (after rs start) ≡ searched rs
    start-searched rs =
        after-search rs start ∙ ap (rounds counts keep lt strict (map as_read rs)) loop.start_search

    IsBelow-as_read :
        (n : L) (rs : List (Result E R))
        → All (Least.IsBelow counts keep lt strict n) (map as_read rs)
        → All (IsBelow n) rs
    IsBelow-as_read n [] h = tt
    IsBelow-as_read n (err e ∷ rs) (_, h) = (tt, IsBelow-as_read n rs h)
    IsBelow-as_read n (ok v ∷ rs) (b, h) = (b, IsBelow-as_read n rs h)

    IsOneOf : List (Result E R) → L → Type 0
    IsOneOf rs n = (n ≡ unlimited) ⊎ ((l : R) × Memᴰ (ok l) rs × (counts l ≡ true) × (keep l ≡ n))

    searched-IsOneOf : (rs : List (Result E R)) → IsOneOf rs (searched rs).min_limit
    unfolding IsOneOf
    searched-IsOneOf rs =
        elim (rounds-IsKept counts keep lt strict (map as_read rs) (failing unlimited tt none)) [
          | inl (n, _) ↦ inl n
          | inr (l, m, c, k) ↦ inr (l, Mem-as_read _ l rs m, c, k)
        ]

    -- What the loop finds, where it went round at least once.
    pub found-IsLeastOf :
        (r : Result E R) (rs : List (Result E R))
        → IsLeastOf (r ∷ rs) (found (after (r ∷ rs) start))
    unfolding IsOneOf
    found-IsLeastOf r rs =
        let all : List (Result E R) = r ∷ rs in
        let same = start-searched all in
        elim (rounds-Left counts keep lt (map as_read all) unlimited tt none) [
          | inl (h, f, x) ↦
              let failed = IsFailed-as_read all h in
              let (e, p) = first_error-some r rs failed in
              subst (IsLeastOf all)
                (sym (
                  loop.found_failed (after all start) e (ap (λ s. s.all_failed) same ∙ f)
                    (ap (λ s. s.leaf_cg_read_err) same ∙ x ∙ first_error-as_read all ∙ p)))
                (none_read failed p)
          | inr (f, (u, v), m) ↦
              subst (IsLeastOf all)
                (sym (
                  loop.found_read (after all start) (ap (λ s. s.all_failed) same ∙ f)
                  ∙ ap (λ s. ok s.min_limit) same))
                (least (Mem-as_read u v all m)
                  (IsBelow-as_read (searched all).min_limit all (
                    rounds-IsBelow counts keep lt strict (map as_read all)
                      (failing unlimited tt none)))
                  (searched-IsOneOf all))
        ]
