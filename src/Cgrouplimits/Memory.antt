-- ===== src/Cgrouplimits/Memory.antt =====
-- `MemStats` of cgrouplimits/memory.go, on a platform that is a parameter.
pub mod Choice
pub mod Within
use procstats.Base.{◌&&◌, Result, ok, err, ◌>>=◌, if◌then◌else◌}
use procstats.Base.Int.{pos, ltb_ℤ}
use procstats.Cgrouplimits.MemUsage.{MemoryStats}
use procstats.Cgrouplimits.Platform.{Error, Platform}

-- The best data of the two: the cgroup's if it has a limit below the host's memory.
unfoldable pub choose_stats : MemoryStats → MemoryStats → MemoryStats
choose_stats cg_mi ms =
    if ltb_ℤ (pos 0) cg_mi.total && ltb_ℤ cg_mi.total ms.total then cg_mi else ms

-- `MemStats`
unfoldable pub mem_stats : {F : Type 0} → Platform F → Result Error MemoryStats
unfolding choose_stats
mem_stats p = do cg_mi ← p.memory_stats; ms ← p.host_stats; ok (choose_stats cg_mi ms)
