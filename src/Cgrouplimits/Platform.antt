-- ===== src/Cgrouplimits/Platform.antt =====
-- What a platform gives to the portable files cpu.go and memory.go of cgrouplimits/: on Linux the
-- functions of cgroup_linux.go and host_linux.go, elsewhere those of cgroup_darwin.go and host_null.go.
use procstats.Base.{Result, err, map_err}
use procstats.Base.Int.{ℤ}
use procstats.Cgrouplimits.CpuLimit
use procstats.Cgrouplimits.CpuLimit.{get_cgroup_cpu_limit}
use procstats.Cgrouplimits.CpuUsage
use procstats.Cgrouplimits.CpuUsage.{CpuStats, get_cgroup_cpu_stats}
use procstats.Cgrouplimits.Host
use procstats.Cgrouplimits.Host.{HostError}
use procstats.Cgrouplimits.MemLimit
use procstats.Cgrouplimits.MemLimit.{get_cgroup_memory_limit}
use procstats.Cgrouplimits.MemUsage
use procstats.Cgrouplimits.MemUsage.{MemoryStats, get_cgroup_memory_stats}
use procstats.Go.Files.{FileSystem}
use procstats.Go.Float.{Float64}

-- The two errors of errors.go, and those of Linux.
pub data Error : Type 0 where
  cgroups_not_supported unimplemented_platform : Error
  cpu_limit_failed : CpuLimit.Error → Error
  cpu_stats_failed : CpuUsage.Error → Error
  memory_limit_failed : MemLimit.Error → Error
  memory_stats_failed : MemUsage.Error → Error
  host_failed : HostError → Error

pub record Platform (F : Type 0) : Type 0 where
  pub cpu_limit : Result Error F
  pub cpu_stats : Result Error (CpuStats F)
  pub memory_limit : Result Error ℤ
  pub memory_stats : Result Error MemoryStats
  pub host_stats : Result Error MemoryStats

module _ (fl : Float64) where
  open fl use {Carrier}

  abbrev pub linux : FileSystem → Platform Carrier
  linux files = record {
    cpu_limit = map_err cpu_limit_failed (get_cgroup_cpu_limit fl files);
    cpu_stats = map_err cpu_stats_failed (get_cgroup_cpu_stats fl files);
    memory_limit = map_err memory_limit_failed (get_cgroup_memory_limit files);
    memory_stats = map_err memory_stats_failed (get_cgroup_memory_stats fl files);
    host_stats = map_err host_failed (Host.host_mem_stats fl files);
  }

-- `HostMemStats` of host_null.go
abbrev pub no_host_stats : Result Error MemoryStats
no_host_stats = err unimplemented_platform

-- The platforms other than Linux.
abbrev pub unsupported : {F : Type 0} → Platform F
unsupported = record {
  cpu_limit = err cgroups_not_supported;
  cpu_stats = err cgroups_not_supported;
  memory_limit = err cgroups_not_supported;
  memory_stats = err cgroups_not_supported;
  host_stats = no_host_stats;
}
