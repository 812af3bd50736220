-- ===== src/Cgrouplimits/Memory/Choice.antt =====
-- `MemStats` chooses between the statistics of the cgroup and of the host.
use procstats.Base.{◌≡◌, ◌⊎◌, inl, inr, refl, arith, ok}
use procstats.Base.Int.{pos, ◌<ℤ◌, ◌≤ℤ◌}
use procstats.Cgrouplimits.MemUsage.{MemoryStats}
use procstats.Cgrouplimits.Memory.{choose_stats, mem_stats}
use procstats.Cgrouplimits.Platform.{Platform}

-- The cgroup's statistics if its limit is positive and below the host's memory, else the host's.
abbrev pub IsChoice : MemoryStats → MemoryStats → MemoryStats → Type 0
IsChoice cg host s =
    ((s ≡ cg) × (pos 0 <ℤ cg.total) × (cg.total <ℤ host.total))
    ⊎ ((s ≡ host) × ((cg.total ≤ℤ pos 0) ⊎ (host.total ≤ℤ cg.total)))

choose_stats-IsChoice : (cg host : MemoryStats) → IsChoice cg host (choose_stats cg host)
unfolding choose_stats
choose_stats-IsChoice cg host = ground arith

choice_total : (cg host s : MemoryStats) → IsChoice cg host s → s.total ≤ℤ host.total
choice_total cg host s (inl (e, p, q)) = rw e (omega arith)
choice_total cg host s (inr (e, q)) = rw e (omega arith)

-- On every platform that has the statistics of both, `MemStats` gives the cgroup's exactly if its limit is
-- positive and below the host's memory; what it gives never has more memory than the host.
pub mem_stats-IsChoice :
    {F : Type 0} (p : Platform F) (cg host : MemoryStats)
    → p.memory_stats ≡ ok cg
    → p.host_stats ≡ ok host
    → (s : MemoryStats) × (mem_stats p ≡ ok s) × IsChoice cg host s × (s.total ≤ℤ host.total)
unfolding mem_stats
mem_stats-IsChoice p cg host c h = (
  choose_stats cg host,
  rw (c, h, mem_stats) refl,
  choose_stats-IsChoice cg host,
  choice_total cg host _ (choose_stats-IsChoice cg host),
)
