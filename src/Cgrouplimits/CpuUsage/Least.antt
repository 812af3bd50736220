-- ===== src/Cgrouplimits/CpuUsage/Least.antt =====
-- `GetCgroupCPUStats` gives the statistics of the cgroup with the least limit, or of the process's own.
use mathlib.Core.List.{foldl, Memᴰ}
use mathlib.Core.Path.{subst}
use procstats.Base.{
  ◌≡◌, inl, inr, refl, sym, ap, ◌∙◌, true, false, List, [], ◌∷◌, Option, none, some, arith, All,
  Result, ok, err, Bool-cases,
}
use procstats.Cgrouplimits.CpuUsage.{
  CpuStats, no_stats, SingleError, Error, leaf_failed, is_cpu_limited, CpuSearch, cpu_start,
  populate, cpu_stats_round, found_cpu_stats,
}
use procstats.Cgrouplimits.Search.Errors.{IsFailed, first_error, first_error-some, rounds-Left}
use procstats.Cgrouplimits.Search.Least.{
  IsStrict, IsBelow, IsKept, rounds, rounds-IsBelow, rounds-IsKept,
}
use procstats.Cgrouplimits.Search.{Search, search_round}
use procstats.Go.Float.{Float64}

module _ (fl : Float64) (strict : IsStrict fl.lt) (inf_eq : fl.eq fl.inf fl.inf ≡ true) where
  open fl use {Carrier, lt, eq, inf}

  abbrev pub Read : Type 0
  Read = Result SingleError (CpuStats Carrier × Carrier)

  abbrev IsLeastOf : Carrier → List Read → Type 0
  IsLeastOf n rs = All (IsBelow (is_cpu_limited fl) (λ v. v) lt strict n) rs

  -- The statistics of the first cgroup that was read.
  abbrev pub first_read : List Read → Option (CpuStats Carrier)
  first_read [] = none
  first_read (ok (s, lim) ∷ rs) = some s
  first_read (err e ∷ rs) = first_read rs

  -- What the loop makes of the reads, from the cgroup outwards.
  pub data IsStatsOf (rs : List Read) : Result Error (CpuStats Carrier) → Type 0 where
    -- No cgroup can be read: the error is that of the first.
    none_read :
        {e : SingleError}
        → All IsFailed rs
        → first_error rs ≡ some e
        → IsStatsOf rs (err (leaf_failed e))
    -- No limit is below infinity: the statistics are of the first cgroup that was read.
    unlimited :
        {stats : CpuStats Carrier} {n : Carrier}
        → eq n inf ≡ true
        → IsLeastOf n rs
        → first_read rs ≡ some stats
        → IsStatsOf rs (ok stats)
    -- The statistics are of a cgroup that has a limit, and no limit is less.
    least :
        {stats : CpuStats Carrier} {n : Carrier}
        → IsLeastOf n rs
        → Memᴰ (ok (stats, n)) rs
        → is_cpu_limited fl n ≡ true
        → IsStatsOf rs (ok stats)

  abbrev pub cpu_rounds : List Read → CpuSearch fl → CpuSearch fl
  cpu_rounds rs s = foldl (λ t r. cpu_stats_round fl r t) s rs

  abbrev or_first :
      Option (CpuStats Carrier) → Option (CpuStats Carrier) → Option (CpuStats Carrier)
  or_first none o = o
  or_first (some s) o = some s

  abbrev limit_rounds :
      List Read
      → Search Carrier (CpuStats Carrier) SingleError
      → Search Carrier (CpuStats Carrier) SingleError
  limit_rounds rs s = rounds (is_cpu_limited fl) (λ v. v) lt strict rs s

  or_first-populate :
      (r : Read) (o : Option (CpuStats Carrier)) (rs : List Read)
      → or_first (populate fl r o) (first_read rs) ≡ or_first o (first_read (r ∷ rs))
  or_first-populate (ok (s, lim)) none rs = refl
  or_first-populate (ok (s, lim)) (some t) rs = refl
  or_first-populate (err e) none rs = refl
  or_first-populate (err e) (some t) rs = refl

  cpu_rounds-first :
      (rs : List Read) (o : Option (CpuStats Carrier))
      (s : Search Carrier (CpuStats Carrier) SingleError)
      → cpu_rounds rs (o, s) ≡ (or_first o (first_read rs), limit_rounds rs s)
  unfolding cpu_stats_round
  cpu_rounds-first [] none s = refl
  cpu_rounds-first [] (some t) s = refl
  cpu_rounds-first (r ∷ rs) o s =
      cpu_rounds-first rs (populate fl r o) (search_round (is_cpu_limited fl) (λ v. v) lt r s)
      ∙ ap (λ f. (f, limit_rounds (r ∷ rs) s)) (or_first-populate r o rs)

  first_read-some :
      (v : CpuStats Carrier × Carrier) (rs : List Read)
      → Memᴰ (ok v) rs
      → (stats : CpuStats Carrier) × (first_read rs ≡ some stats)
  first_read-some v [] m = elim m [ ]
  first_read-some v (ok (s, lim) ∷ rs) m = (s, refl)
  first_read-some v (err e ∷ rs) (Memᴰ.head q) = absurd (cc)
  first_read-some v (err e ∷ rs) (Memᴰ.tail m) = first_read-some v rs m

  abbrev begin : Search Carrier (CpuStats Carrier) SingleError
  begin = (cpu_start fl).1

  found_failed :
      (o : Option (CpuStats Carrier)) (s : Search Carrier (CpuStats Carrier) SingleError)
      (e : SingleError)
      → s.all_failed ≡ true
      → s.leaf_cg_read_err ≡ some e
      → found_cpu_stats fl (o, s) ≡ err (leaf_failed e)
  found_failed o s e f h = rw (f, h) refl

  found_unlimited :
      (stats : CpuStats Carrier) (o : Option (CpuStats Carrier))
      (s : Search Carrier (CpuStats Carrier) SingleError)
      → s.all_failed ≡ false
      → eq s.min_limit inf ≡ true
      → o ≡ some stats
      → found_cpu_stats fl (o, s) ≡ ok stats
  found_unlimited stats o s f e h = rw (f, e, h) refl

  found_least :
      (o : Option (CpuStats Carrier)) (s : Search Carrier (CpuStats Carrier) SingleError)
      → s.all_failed ≡ false
      → eq s.min_limit inf ≡ false
      → found_cpu_stats fl (o, s) ≡ ok s.min_stats
  found_least o s f e = rw (f, e) refl

  kept_read :
      (rs : List Read) (n : Carrier) (stats : CpuStats Carrier)
      → eq n inf ≡ false
      → IsKept (is_cpu_limited fl) (λ v. v) lt strict rs begin n stats
      → Memᴰ (ok (stats, n)) rs × (is_cpu_limited fl n ≡ true)
  kept_read rs n stats e (inl (l, m)) = absurd (ground (arith, inf_eq))
  kept_read rs n stats e (inr (lim, m, c, q)) =
      (subst (λ x. Memᴰ (ok (stats, x)) rs) q m, subst (λ x. is_cpu_limited fl x ≡ true) q c)

  pub found-IsStatsOf :
      (r : Read) (rs : List Read)
      → IsStatsOf (r ∷ rs) (found_cpu_stats fl (cpu_rounds (r ∷ rs) (cpu_start fl)))
  found-IsStatsOf r rs =
      let all = r ∷ rs in
      let s = limit_rounds all begin in
      let below = rounds-IsBelow (is_cpu_limited fl) (λ v. v) lt strict all begin in
      let kept = rounds-IsKept (is_cpu_limited fl) (λ v. v) lt strict all begin in
      subst (λ t. IsStatsOf all (found_cpu_stats fl t)) (sym (cpu_rounds-first all none begin))
        (elim (rounds-Left (is_cpu_limited fl) (λ v. v) lt all inf (no_stats fl) none) [
          | inl (h, f, x) ↦
              let (e, q) = first_error-some r rs h in
              rw (found_failed (first_read all) s e f (x ∙ q)) (none_read h q)
          | inr (f, v, m) ↦ elim (Bool-cases (eq s.min_limit inf)) [
            | inl e ↦
                let (stats, q) = first_read-some v all m in
                rw (found_unlimited stats (first_read all) s f e q) (unlimited e below q)
            | inr e ↦
                let (mem, c) = kept_read all s.min_limit s.min_stats e kept in
                rw (found_least (first_read all) s f e) (least below mem c)
          ]
        ])
