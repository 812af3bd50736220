-- ===== src/Cgrouplimits/CpuLimit/Minimum.antt =====
-- The loop of `GetCgroupCPULimit` finds the least limit.
use mathlib.Core.Bool.{not}
use procstats.Base.{◌≡◌, refl, Bool, true, false, ◌&&◌, List, none, some, arith, Result, ok, err}
use procstats.Base.Int.{pos, negsuc}
use procstats.Cgrouplimits.CpuLimit.{
  SingleError, CpuLimits, Error, leaf_failed, cpu_limit_round, found_cpu_limit,
}
use procstats.Cgrouplimits.Search.Limits.{IsLeastOf, LimitLoop, as_read}
use procstats.Cgrouplimits.Search.{Search, search_round}
use procstats.Go.Float.{Float64}

module _ (fl : Float64) where
  open fl use {Carrier, of_int, lt, eq, inf}

  -- 0 and -1 are no limits.
  abbrev pub counts : Carrier → Bool
  counts v = not (eq v (of_int (negsuc 0))) && not (eq v (of_int (pos 0)))

  -- What the loop makes of the limits on a way: the least of them, or the first error.
  abbrev pub IsLimitOf : List (Result SingleError Carrier) → Result Error Carrier → Type 0
  IsLimitOf = IsLeastOf counts (λ v. v) lt leaf_failed inf

  abbrev pub as_search : CpuLimits Carrier → Search Carrier (Unit {0}) SingleError
  as_search l = record {
    min_limit = l.min_limit;
    min_stats = tt;
    all_failed = l.all_failed;
    leaf_cg_read_err = l.leaf_cg_read_err;
  }

  pub round_search :
      (r : Result SingleError Carrier) (l : CpuLimits Carrier)
      → as_search (cpu_limit_round fl r l)
        ≡ search_round counts (λ v. v) lt (as_read r) (as_search l)
  unfolding cpu_limit_round search_round
  round_search (err e) l = refl
  round_search (ok v) l = ground arith

  pub found_failed :
      (l : CpuLimits Carrier) (e : SingleError)
      → l.all_failed ≡ true
      → l.leaf_cg_read_err ≡ some e
      → found_cpu_limit fl l ≡ err (leaf_failed e)
  found_failed l e f x = rw (f, x) refl

  pub found_read :
      (l : CpuLimits Carrier) → l.all_failed ≡ false → found_cpu_limit fl l ≡ ok l.min_limit
  found_read l f = rw f refl

  abbrev pub cpu_loop : LimitLoop counts (λ v. v) lt leaf_failed inf (CpuLimits Carrier)
  cpu_loop = record {
    round = cpu_limit_round fl;
    found = found_cpu_limit fl;
    as_search = as_search;
    start = record { min_limit = inf; all_failed = true; leaf_cg_read_err = none };
    start_search = refl;
    round_search = round_search;
    found_failed = found_failed;
    found_read = found_read;
  }
