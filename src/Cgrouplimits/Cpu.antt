-- ===== src/Cgrouplimits/Cpu.antt =====
-- `CPU` and `CPUStat` of cgrouplimits/cpu.go; the platform and the number of CPUs are parameters.
pub mod Bounds
pub mod Within
use procstats.Base.{ℕ, Bool, ◌||◌, Option, none, some, if◌then◌else◌, Result, ok, err}
use procstats.Base.Int.{pos}
use procstats.Cgrouplimits.CpuUsage.{CpuStats, no_stats}
use procstats.Cgrouplimits.Platform.{Error, Platform}
use procstats.Go.Float.{Float64}

module _ (fl : Float64) where
  open fl use {Carrier, of_int, lt, eq}

  -- `a <= b` on float64.
  abbrev pub le : Carrier → Carrier → Bool
  le a b = lt a b || eq a b

  -- The limit that `CPU` chooses, of the CPUs that the process can run on and the cgroup's.
  unfoldable pub choose_limit : {E : Type 0} → Carrier → Result E Carrier → Carrier
  choose_limit runtime_limit (err e) = runtime_limit
  choose_limit runtime_limit (ok cgroup_limit) =
      if le cgroup_limit (of_int (pos 0)) || lt runtime_limit cgroup_limit
      then runtime_limit
      else cgroup_limit

  -- `CPU`, where `runtime.NumCPU()` is a parameter.
  unfoldable pub cpu : ℕ → Platform Carrier → Carrier
  unfolding choose_limit
  cpu num_cpu p = choose_limit (of_int (pos num_cpu)) p.cpu_limit

  -- `CPUStat`: the statistics beside the error, if there is one.
  unfoldable pub cpu_stat : ℕ → Platform Carrier → CpuStats Carrier × Option Error
  unfolding cpu
  cpu_stat num_cpu p = elim p.cpu_stats [
    | err e ↦ (record (no_stats fl) { limit = cpu num_cpu p }, some e)
    | ok cg_cpu_stats ↦ (record cg_cpu_stats { limit = cpu num_cpu p }, none)
  ]
