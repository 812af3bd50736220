-- ===== src/Cgrouplimits/MemUsage/Totals.antt =====
-- The statistics that `getCGroupMemoryStatsSingle` gives have the limit as their total, an int64.
use mathlib.Core.Path.{subst}
use procstats.Base.{
  ◌≡◌, refl, List, [], ◌∷◌, arith, Bytes, codes, All, Option, none, some, require, Result, ok, err,
}
use procstats.Base.Int.{ℤ, IsInt64}
use procstats.Cgresolver.CgPath.{CGroupPath}
use procstats.Cgrouplimits.MemUsage.Least.{Read, stats_read}
use procstats.Cgrouplimits.MemUsage.{
  MemoryStats, v1_stats, v1_memory_stats, v2_stats, v2_memory_stats, get_cgroup_memory_stats_single,
}
use procstats.Go.Files.{ReadError, not_exist, other_error, FileSystem, read_in}
use procstats.Go.Spaces.{trim_space}
use procstats.Go.Strconv.Range.{parse_int-IsInt64}
use procstats.Cgrouplimits.MemLimit.{FileError, unreadable, no_integer, read_int_val_file, int_val}
use procstats.Cgrouplimits.MemUsage.{limit_or_none}
use procstats.Go.Float.{Float64}

int_val-IsInt64 : (contents : Bytes) (z : ℤ) → int_val contents ≡ some z → IsInt64 z
unfolding int_val
int_val-IsInt64 contents z e = ground (arith, parse_int-IsInt64 (trim_space contents) z)

require-IsInt64 :
    (o : Option ℤ) (z : ℤ)
    → ((v : ℤ) → o ≡ some v → IsInt64 v)
    → require o no_integer ≡ ok z
    → IsInt64 z
require-IsInt64 none z h e = cc
require-IsInt64 (some v) z h e = subst IsInt64 (cc) (h v refl)

read_int_val_file-IsInt64 :
    (files : FileSystem) (dir file : Bytes) (z : ℤ)
    → read_int_val_file files dir file ≡ ok z
    → IsInt64 z
unfolding read_int_val_file
read_int_val_file-IsInt64 files dir file z e = by_read (read_in files dir file) e
  where
    by_read :
        (r : Result ReadError Bytes)
        → (elim r [ err e ↦ err (unreadable e) | ok conts ↦ require (int_val conts) no_integer ])
          ≡ ok z
        → IsInt64 z
    by_read (err x) h = cc
    by_read (ok conts) h = require-IsInt64 (int_val conts) z (int_val-IsInt64 conts) h

limit_or_none-IsInt64 :
    (r : Result FileError ℤ) (z : ℤ)
    → ((v : ℤ) → r ≡ ok v → IsInt64 v)
    → limit_or_none r ≡ ok z
    → IsInt64 z
unfolding limit_or_none
limit_or_none-IsInt64 (ok v) z h e = subst IsInt64 (cc) (h v refl)
limit_or_none-IsInt64 (err (unreadable not_exist)) z h e = ground arith
limit_or_none-IsInt64 (err (unreadable other_error)) z h e = cc
limit_or_none-IsInt64 (err no_integer) z h e = cc

-- The total of a cgroup's statistics is its limit, which is an int64.
module _ (fl : Float64) (files : FileSystem) (p : CGroupPath) (s : MemoryStats) (limit : ℤ) where
  abbrev IsTotal : Type 0
  IsTotal = (s.total ≡ limit) × IsInt64 limit

  v1_memory_stats-IsTotal : v1_memory_stats fl files p ≡ ok (s, limit) → IsTotal
  unfolding v1_memory_stats v1_stats
  v1_memory_stats-IsTotal e =
      ground
        (arith, read_int_val_file-IsInt64 files p.abs_path (codes "memory.limit_in_bytes") limit)

  v2_memory_stats-IsTotal : v2_memory_stats fl files p ≡ ok (s, limit) → IsTotal
  unfolding v2_memory_stats v2_stats
  v2_memory_stats-IsTotal e = ground (
    arith,
    limit_or_none-IsInt64 (read_int_val_file files p.abs_path (codes "memory.max")) limit
        (read_int_val_file-IsInt64 files p.abs_path (codes "memory.max")),
  )

  single-IsTotal : get_cgroup_memory_stats_single fl files p ≡ ok (s, limit) → IsTotal
  unfolding get_cgroup_memory_stats_single
  single-IsTotal e = ground (arith, v1_memory_stats-IsTotal, v2_memory_stats-IsTotal)

-- The total of what is read is its limit, an int64.
abbrev pub Fits : Read → Type 0
Fits (err e) = Unit
Fits (ok (s, limit)) = (s.total ≡ limit) × IsInt64 limit

module _ (fl : Float64) (files : FileSystem) where
  pub stats_read-Fits : (ps : List CGroupPath) → All Fits (stats_read fl files ps)
  stats_read-Fits [] = tt
  stats_read-Fits (p ∷ ps) =
      (read_Fits (get_cgroup_memory_stats_single fl files p) refl, stats_read-Fits ps)
    where
      read_Fits : (r : Read) → get_cgroup_memory_stats_single fl files p ≡ r → Fits r
      read_Fits (err e) h = tt
      read_Fits (ok (s, limit)) h = single-IsTotal fl files p s limit h
