-- ===== src/Cgrouplimits/Search.antt =====
-- What the loops of `GetCgroupMemoryStats` and `GetCgroupCPUStats` in cgrouplimits/cgroup_linux.go
-- share: they keep the statistics of the cgroup with the least limit, and the first error.
pub mod Least
pub mod Errors
pub mod Limits
use procstats.Base.{Bool, true, false, ◌&&◌, Option, none, some, if◌then◌else◌, Result, ok, err}
use procstats.Cgrouplimits.MemLimit.{keep_first}

-- The loop's variables, over limits `L`, statistics `S` and errors `E`.
pub record Search (L S E : Type 0) : Type 0 where
  pub min_limit : L
  pub min_stats : S
  pub all_failed : Bool
  pub leaf_cg_read_err : Option E

module _ {R L S E : Type 0} (counts : R → Bool) (keep : R → L) (lt : L → L → Bool) where
  -- The loop's body, on what was read of a cgroup; `counts` tells a limit from none, and `keep` makes
  -- it a limit to compare.
  unfoldable pub search_round : Result E (S × R) → Search L S E → Search L S E
  search_round (err e) s = record s {
    leaf_cg_read_err = keep_first s.all_failed s.leaf_cg_read_err e;
  }
  search_round (ok (cg_stats, cg_lim)) s =
      let least = counts cg_lim && lt (keep cg_lim) s.min_limit in
      record {
        min_limit = if least then keep cg_lim else s.min_limit;
        min_stats = if least then cg_stats else s.min_stats;
        all_failed = false;
        leaf_cg_read_err = s.leaf_cg_read_err;
      }
