-- ===== src/Cgrouplimits/CpuUsage.antt =====
-- `CPUStats` of cgrouplimits/cpu.go, and `GetCgroupCPUStats` of cgrouplimits/cgroup_linux.go with the
-- functions that it calls.
pub mod Rendered
pub mod Least
pub mod Walk
pub mod RenderedV1
pub mod Kernel
use procstats.Base.{
  map_err, ℕ, zero, suc, Bool, true, false, not, ◌&&◌, ◌||◌, List, Option, none, some,
  if◌then◌else◌, Bytes, codes, length, Result, ok, err, ◌>>=◌,
}
use procstats.Base.Int.{ℤ, pos, negsuc, ◌*ℤ◌, wrap64}
use procstats.Cgresolver.CgPath.{CgMode, unknown, v1, v2, CGroupPath, Stop, for_ancestors}
use procstats.Cgresolver.ProcCgroup.Resolve
use procstats.Cgresolver.ProcCgroup.Resolve.{self_subsystem_path}
use procstats.Cgrouplimits.CpuLimit
use procstats.Cgrouplimits.CpuLimit.{
  max_unreadable, get_cgroup_cpu_limit_single, get_cgroup_cpu_limit,
}
use procstats.Cgrouplimits.CpuStat.{
  cg2_cpu_stat_contents, cg1_cpu_stat_contents, cg1_cpu_acct_stat_contents,
}
use procstats.Cgrouplimits.MemLimit.{FileError, unreadable, no_integer, read_int_val_file}
use procstats.Cgrouplimits.MemUsage.{filled, parse_new}
use procstats.Cgrouplimits.Search.{Search, search_round}
use procstats.Go.Files.{ReadError, not_exist, other_error, FileSystem, read_in}
use procstats.Go.Float.{Float64}
use procstats.Go.Paths.{join}
use procstats.Pparser.Fields.{int_field}
use procstats.Pparser.Setters
use procstats.Pparser.Types.{Field, Struct}
use procstats.Processes.CpuTime.{CpuTime}

pub record CpuStats (F : Type 0) : Type 0 where
  pub limit : F
  pub usage : CpuTime
  pub throttled_time : ℤ

-- Where the functions that read a cgroup's usage give up.
pub data UsageError : Type 0 where
  user_failed sys_failed : FileError → UsageError
  stat_unreadable acct_unreadable : ReadError → UsageError
  stat_malformed acct_malformed : Setters.Error → UsageError

-- Where `getCGroupCPUStatsSingle` gives up.
pub data SingleError : Type 0 where
  limit_failed : CpuLimit.SingleError → SingleError
  no_cpuacct : Resolve.Error → SingleError
  usage_failed : UsageError → SingleError
  throttling_unreadable : ReadError → SingleError
  throttling_malformed : Setters.Error → SingleError
  unknown_type : SingleError

-- Where `GetCgroupCPUStats` gives up. `nil_error` would be a nil error beside empty statistics.
pub data Error : Type 0 where
  no_cgroup : Resolve.Error → Error
  nil_error : Error
  leaf_failed : SingleError → Error
  stopped : Stop → Error

-- `time.Duration(n) * unit`, a unit in nanoseconds.
unfoldable pub duration : ℤ → ℕ → ℤ
duration n unit = wrap64 (n *ℤ pos unit)

abbrev pub no_time : CpuTime
no_time = record { utime = pos 0; stime = pos 0 }

module _ (fl : Float64) where
  open fl use {Carrier, of_int, lt, eq, inf}

  -- `CPUStats{}`
  abbrev pub no_stats : CpuStats Carrier
  no_stats = record { limit = of_int (pos 0); usage = no_time; throttled_time = pos 0 }

  -- `cgroupV1ReadCPUAcctStats`
  unfoldable pub cgroup_v1_read_cpu_acct_stats : FileSystem → Bytes → Result UsageError CpuTime
  unfolding duration
  cgroup_v1_read_cpu_acct_stats files dir = do
    c_stats_bytes ← map_err acct_unreadable (read_in files dir (codes "cpuacct.stat"))
    c_stats ←
        map_err acct_malformed (parse_new fl cg1_cpu_acct_stat_contents (codes " ") c_stats_bytes)
    ok (record {
      utime = wrap64 (
          wrap64 (int_field cg1_cpu_acct_stat_contents (codes "UserTicks") c_stats *ℤ pos 10)
          *ℤ pos 1000000);
      stime = wrap64 (
          wrap64 (int_field cg1_cpu_acct_stat_contents (codes "SysTicks") c_stats *ℤ pos 10)
          *ℤ pos 1000000);
    })

  -- Behind the user time of `CGroupV1CPUUsage`.
  unfoldable pub v1_usage : FileSystem → Bytes → Result FileError ℤ → Result UsageError CpuTime
  unfolding cgroup_v1_read_cpu_acct_stats duration
  v1_usage files dir (err (unreadable not_exist)) = cgroup_v1_read_cpu_acct_stats files dir
  v1_usage files dir (err (unreadable other_error)) = err (user_failed (unreadable other_error))
  v1_usage files dir (err no_integer) = err (user_failed no_integer)
  v1_usage files dir (ok user_cpu_ns) = do
    sys_cpu_ns ← map_err sys_failed (read_int_val_file files dir (codes "cpuacct.usage_sys"))
    ok (record { utime = duration user_cpu_ns 1; stime = duration sys_cpu_ns 1 })

  -- `CGroupV1CPUUsage(os.DirFS(dir))`
  unfoldable pub cgroup_v1_cpu_usage : FileSystem → Bytes → Result UsageError CpuTime
  unfolding v1_usage
  cgroup_v1_cpu_usage files dir =
      v1_usage files dir (read_int_val_file files dir (codes "cpuacct.usage_user"))

  -- `CGroupV2CPUUsage(os.DirFS(dir))`
  unfoldable pub cgroup_v2_cpu_usage : FileSystem → Bytes → Result UsageError (CpuStats Carrier)
  unfolding duration
  cgroup_v2_cpu_usage files dir = do
    cst_contents ← map_err stat_unreadable (read_in files dir (codes "cpu.stat"))
    cg2_stats ← map_err stat_malformed (parse_new fl cg2_cpu_stat_contents (codes " ") cst_contents)
    ok (record {
      limit = of_int (pos 0);
      usage = record {
        utime = duration (int_field cg2_cpu_stat_contents (codes "Userμs") cg2_stats) 1000;
        stime = duration (int_field cg2_cpu_stat_contents (codes "Sysμs") cg2_stats) 1000;
      };
      throttled_time =
          duration (int_field cg2_cpu_stat_contents (codes "Throttledμs") cg2_stats) 1000;
    })

  -- A limit whose file does not exist is -1, where the error still tells so; another error stands.
  unfoldable pub limit_or_none : Result CpuLimit.SingleError Carrier → Result SingleError Carrier
  limit_or_none (ok lim) = ok lim
  limit_or_none (err (max_unreadable not_exist)) = ok (of_int (negsuc 0))
  limit_or_none (err e) = err (limit_failed e)

  -- The v1 branch of `getCGroupCPUStatsSingle`.
  unfoldable pub v1_cpu_stats : FileSystem → CGroupPath → Result SingleError (CpuStats Carrier)
  unfolding cgroup_v1_cpu_usage self_subsystem_path
  v1_cpu_stats files cpu_path = do
    cst_contents ← map_err throttling_unreadable (files (join cpu_path.abs_path (codes "cpu.stat")))
    cg1_stats ←
        map_err throttling_malformed (parse_new fl cg1_cpu_stat_contents (codes " ") cst_contents)
    cpu_acct_path ← map_err no_cpuacct (self_subsystem_path files (codes "cpuacct"))
    usage_read ← map_err usage_failed (cgroup_v1_cpu_usage files cpu_acct_path.abs_path)
    ok (record {
      limit = of_int (pos 0);
      usage = usage_read;
      throttled_time = duration (int_field cg1_cpu_stat_contents (codes "Throttledns") cg1_stats) 1;
    })

  -- `getCGroupCPUStatsSingle`
  unfoldable pub get_cgroup_cpu_stats_single :
      FileSystem → CGroupPath → Result SingleError (CpuStats Carrier × Carrier)
  unfolding limit_or_none v1_cpu_stats cgroup_v2_cpu_usage
  get_cgroup_cpu_stats_single files cpu_path = do
    lim ← limit_or_none (get_cgroup_cpu_limit_single fl files cpu_path)
    stats ← elim cpu_path.mode [
      | v1 ↦ v1_cpu_stats files cpu_path
      | v2 ↦ map_err usage_failed (cgroup_v2_cpu_usage files cpu_path.abs_path)
      | unknown ↦ err unknown_type
    ]
    ok (stats, lim)

  -- The variables of the loop of `GetCgroupCPUStats`; `none` is `!cpuStatsPopulated`.
  abbrev pub CpuSearch : Type 0
  CpuSearch = Option (CpuStats Carrier) × Search Carrier (CpuStats Carrier) SingleError

  abbrev pub cpu_start : CpuSearch
  cpu_start = (
    none,
    record { min_limit = inf; min_stats = no_stats; all_failed = true; leaf_cg_read_err = none },
  )

  abbrev pub populate :
      Result SingleError (CpuStats Carrier × Carrier)
      → Option (CpuStats Carrier)
      → Option (CpuStats Carrier)
  populate (ok (s, lim)) none = some s
  populate (ok _) (some s) = some s
  populate (err e) o = o

  -- `cgLim != -1 && cgLim != 0.0`
  abbrev pub is_cpu_limited : Carrier → Bool
  is_cpu_limited v = not (eq v (of_int (negsuc 0))) && not (eq v (of_int (pos 0)))

  -- The loop's body, on what `getCGroupCPUStatsSingle` returned.
  unfoldable pub cpu_stats_round :
      Result SingleError (CpuStats Carrier × Carrier) → CpuSearch → CpuSearch
  unfolding search_round
  cpu_stats_round r (leaf, s) = (populate r leaf, search_round is_cpu_limited (λ v. v) lt r s)

  -- `math.IsInf(x, +1)`: equal to positive infinity. What stands behind the loop.
  abbrev pub found_cpu_stats : CpuSearch → Result Error (CpuStats Carrier)
  found_cpu_stats (leaf, s) =
      if s.all_failed
      then elim s.leaf_cg_read_err [ none ↦ err nil_error | some e ↦ err (leaf_failed e) ]
      else if eq s.min_limit inf
      then ok (elim leaf [ none ↦ no_stats | some l ↦ l ])
      else ok s.min_stats

  -- The loop; the length of the path bounds it.
  unfoldable pub cpu_stats_from : FileSystem → CGroupPath → Result Error (CpuStats Carrier)
  unfolding get_cgroup_cpu_stats_single cpu_stats_round for_ancestors
  cpu_stats_from files cpu_path =
      elim (for_ancestors (λ p s. cpu_stats_round (get_cgroup_cpu_stats_single files p) s)
        (suc (length cpu_path.abs_path)) cpu_path cpu_start) [
          | err e ↦ err (stopped e)
          | ok s ↦ found_cpu_stats s
        ]

  -- `GetCgroupCPUStats`
  unfoldable pub get_cgroup_cpu_stats : FileSystem → Result Error (CpuStats Carrier)
  unfolding cpu_stats_from self_subsystem_path
  get_cgroup_cpu_stats files = elim (self_subsystem_path files (codes "cpu")) [
    | err e ↦ err (no_cgroup e)
    | ok cpu_path ↦ cpu_stats_from files cpu_path
  ]
