-- ===== src/Tests/UnifiedCpu.antt =====
-- The CPU statistics of a process in a hierarchy of cgroup v2, at concrete files.
use procstats.Base.{refl, List, [], ◌∷◌, none, some, arith, codes, equal, map}
use procstats.Cgresolver.CgPath.Walk.{visited}
use procstats.Cgresolver.CgPath.{v2}
use procstats.Cgrouplimits.CpuUsage.Kernel.{
  StatFiles, stat_missing, all_files, stats_of, HaveStatFiles, get_cgroup_cpu_stats-IsOnMount,
}
use procstats.Cgrouplimits.CpuUsage.Least.{IsStatsOf}
use procstats.Cgrouplimits.CpuUsage.{get_cgroup_cpu_stats}
use procstats.Go.Files.{not_exist, read_in}
use procstats.Go.Paths.{join}
use procstats.Go.Strings.{split}
use procstats.Tests.Files.{one_entry, one_entry-IsItem}
use procstats.Tests.Limits.{whole-IsStrict}
use procstats.Tests.Parser.{whole}
use procstats.Tests.Unified.{
  subsystems, entries, unified_row, unified_files, files-IsProcess, unified-IsOnMount, cpu_found,
}

-- No quota in the cgroup itself, one in its parent, and no file at the mount point.
abbrev stat_files : List StatFiles
stat_files =
    all_files (some (none, 100000)) one_entry
    ∷ all_files (some (some 150000, 100000)) []
    ∷ stat_missing none not_exist
    ∷ []

have_stat_files :
    HaveStatFiles whole whole-IsStrict refl unified_files
      (visited (codes "/sys/cgroup") v2 (codes "/sys/cgroup") (codes "a" ∷ codes "user" ∷ []))
      stat_files
unfolding equal join read_in split
have_stat_files = (
  (((refl, refl), tt, omega arith), (refl, refl), one_entry-IsItem),
  (
    (((refl, refl), omega arith, omega arith), (refl, refl), tt),
    (((refl, refl), (refl, refl)), tt),
  ),
)

get_cgroup_cpu_stats-IsOnMount_example :
    IsStatsOf whole whole-IsStrict refl
      (map (stats_of whole whole-IsStrict refl) stat_files)
      (get_cgroup_cpu_stats whole unified_files)
get_cgroup_cpu_stats-IsOnMount_example =
    get_cgroup_cpu_stats-IsOnMount whole whole-IsStrict refl unified_files subsystems entries
      (unified_row ∷ []) (codes "sys") (codes "cgroup" ∷ []) (codes "user" ∷ codes "a" ∷ []) v2
      stat_files files-IsProcess (unified-IsOnMount (codes "cpu") cpu_found) have_stat_files
