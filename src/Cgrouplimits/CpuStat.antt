-- ===== src/Cgrouplimits/CpuStat.antt =====
-- The structs for cpu.stat and cpuacct.stat in cgrouplimits/cgroup_linux.go.
use procstats.Base.{List, [], ◌∷◌}
use procstats.Pparser.Types.{int64, Field, tagged, unknown_fields}

-- `cg2CPUStatContents`
abbrev pub cg2_cpu_stat_contents : List Field
cg2_cpu_stat_contents =
    tagged "Usageμs" "usage_usec" int64
    ∷ tagged "Userμs" "user_usec" int64
    ∷ tagged "Sysμs" "system_usec" int64
    ∷ tagged "TotalPeriods" "nr_periods" int64
    ∷ tagged "ThrottledPeriods" "nr_throttled" int64
    ∷ tagged "Throttledμs" "throttled_usec" int64
    ∷ tagged "BurstCount" "nr_bursts" int64
    ∷ tagged "Burstμs" "burst_usec" int64
    ∷ unknown_fields int64
    ∷ []

-- `cg1CPUStatContents`
abbrev pub cg1_cpu_stat_contents : List Field
cg1_cpu_stat_contents =
    tagged "TotalPeriods" "nr_periods" int64
    ∷ tagged "ThrottledPeriods" "nr_throttled" int64
    ∷ tagged "Throttledns" "throttled_time" int64
    ∷ tagged "BurstCount" "nr_bursts" int64
    ∷ tagged "Burstns" "burst_time" int64
    ∷ tagged "Waitns" "wait_sum" int64
    ∷ unknown_fields int64
    ∷ []

-- `cg1CPUAcctStatContents`
abbrev pub cg1_cpu_acct_stat_contents : List Field
cg1_cpu_acct_stat_contents =
    tagged "UserTicks" "user" int64 ∷ tagged "SysTicks" "system" int64 ∷ unknown_fields int64 ∷ []
