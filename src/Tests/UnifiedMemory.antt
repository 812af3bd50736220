-- ===== src/Tests/UnifiedMemory.antt =====
-- The memory statistics of a process in a hierarchy of cgroup v2, at concrete files.
use procstats.Base.{refl, List, [], ◌∷◌, some, arith, codes, equal, map}
use procstats.Cgresolver.CgPath.Walk.{visited}
use procstats.Cgresolver.CgPath.{v2}
use procstats.Cgrouplimits.MemUsage.Kernel.{
  MemFiles, stat_missing, events_missing, all_files, stats_of, HaveMemFiles,
  get_cgroup_memory_stats-IsOnMount,
}
use procstats.Cgrouplimits.MemUsage.Least.{IsStatsOf}
use procstats.Cgrouplimits.MemUsage.{get_cgroup_memory_stats}
use procstats.Go.Files.{not_exist, read_in}
use procstats.Go.Paths.{join}
use procstats.Go.Strings.{split}
use procstats.Tests.Files.{mem_entry, mem_entry-IsItem}
use procstats.Tests.Parser.{whole}
use procstats.Tests.Unified.{
  subsystems, entries, unified_row, unified_files, files-IsProcess, unified-IsOnMount, memory_found,
}

-- A limit in the cgroup itself, a parent without memory.events, and no file at the mount point.
abbrev mem_files : List MemFiles
mem_files =
    all_files mem_entry [] 8192 (some 65536)
    ∷ events_missing [] not_exist
    ∷ stat_missing not_exist
    ∷ []

have_mem_files :
    HaveMemFiles unified_files
      (visited (codes "/sys/cgroup") v2 (codes "/sys/cgroup") (codes "a" ∷ codes "user" ∷ []))
      mem_files
unfolding equal join read_in split
have_mem_files = (
  (refl, refl, mem_entry-IsItem, refl, tt, refl, omega arith, refl, omega arith),
  ((refl, refl, tt, refl), ((refl, refl), tt)),
)

get_cgroup_memory_stats-IsOnMount_example :
    IsStatsOf (map stats_of mem_files) (get_cgroup_memory_stats whole unified_files)
get_cgroup_memory_stats-IsOnMount_example =
    get_cgroup_memory_stats-IsOnMount unified_files whole subsystems entries (unified_row ∷ [])
      (codes "sys") (codes "cgroup" ∷ []) (codes "user" ∷ codes "a" ∷ []) v2 mem_files
      files-IsProcess (unified-IsOnMount (codes "memory") memory_found) have_mem_files
