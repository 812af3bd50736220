-- ===== src/Tests/V1Stats.antt =====
-- The statistics of a v1 memory cgroup at concrete files.
use procstats.Base.{◌≡◌, refl, false, List, [], ◌∷◌, arith, codes, equal, All, ok, if◌then◌else◌}
use procstats.Base.Int.{pos}
use procstats.Cgresolver.CgPath.Walk.{at}
use procstats.Cgresolver.CgPath.{v1}
use procstats.Cgresolver.ProcCgroup.Composed.{IsProcess, subsystem_path-IsOnMount}
use procstats.Go.Files.{FileSystem}
use procstats.Base.Int.{◌*ℤ◌}
use procstats.Cgresolver.CgPath.{CGroupPath}
use procstats.Cgresolver.ProcCgroup.Resolve.{self_subsystem_path}
use procstats.Cgrouplimits.MemLimit.{read_int_val_file}
use procstats.Cgrouplimits.MemUsage.RenderedV1.{exact_v1_stats, v1_memory_stats-render}
use procstats.Cgrouplimits.MemUsage.{v1_memory_stats}
use procstats.Go.Files.{read_in}
use procstats.Go.Spaces.{trim_space}
use procstats.Go.Strconv.{parse_int}
use procstats.Pparser.Dict.Render.{Item, render, IsItem}
use procstats.Tests.Files.{entry_line-IsItem}
use procstats.Tests.Parser.{whole}
use procstats.Go.Paths.{join}
use procstats.Go.Strings.{split}
use procstats.Tests.Hierarchies.{
  subsystems, entries, memory_row, files, subsystems-IsSubsystem, entries-IsEntry, memory_row-IsRow,
  memory-IsOnMount,
}

abbrev stat_lines : List Item
stat_lines = record { name = codes "total_cache"; space = []; number = pos 4096; kilo = false } ∷ []

abbrev oom_lines : List Item
oom_lines = record { name = codes "oom_kill"; space = []; number = pos 2; kilo = false } ∷ []

stat_lines-IsItem : All (IsItem b' ') stat_lines
unfolding ◌*ℤ◌
stat_lines-IsItem = (
  entry_line-IsItem (codes "total_cache") (pos 4096) (ground arith) (ground arith)
      (omega arith, omega arith) (omega arith, omega arith),
  tt,
)

oom_lines-IsItem : All (IsItem b' ') oom_lines
unfolding ◌*ℤ◌
oom_lines-IsItem = (
  entry_line-IsItem (codes "oom_kill") (pos 2) (ground arith) (ground arith)
      (omega arith, omega arith) (omega arith, omega arith),
  tt,
)

abbrev stat_files : FileSystem
stat_files path =
    if equal path (codes "/sys/memory/x/memory.oom_control")
    then ok (render b' ' oom_lines)
    else if equal path (codes "/sys/memory/x/memory.stat")
    then ok (render b' ' stat_lines)
    else if equal path (codes "/sys/memory/x/memory.usage_in_bytes")
    then ok (codes "8192\n")
    else files path

abbrev own : CGroupPath
own = at (codes "/sys/memory") v1 (codes "/sys/memory") (codes "x" ∷ [])

stat_files-IsProcess : IsProcess stat_files (codes "self") subsystems entries (memory_row ∷ [])
unfolding equal join split
stat_files-IsProcess = record {
  cgroups_read = refl;
  subsystems = subsystems-IsSubsystem;
  cgroup_read = refl;
  entries = entries-IsEntry;
  mountinfo_read = refl;
  rows = memory_row-IsRow;
}

own_found : self_subsystem_path stat_files (codes "memory") ≡ ok own
unfolding self_subsystem_path
own_found =
    subsystem_path-IsOnMount stat_files (codes "self") (codes "memory") subsystems entries
      (memory_row ∷ []) (codes "sys") (codes "memory" ∷ []) (codes "x" ∷ []) v1 stat_files-IsProcess
      memory-IsOnMount

oom_control_read :
    stat_files (join (codes "/sys/memory/x") (codes "memory.oom_control"))
    ≡ ok (render b' ' oom_lines)
unfolding equal join split
oom_control_read = refl

memory_stat_read :
    stat_files (join (codes "/sys/memory/x") (codes "memory.stat")) ≡ ok (render b' ' stat_lines)
unfolding equal join split
memory_stat_read = refl

limit_read :
    read_int_val_file stat_files (codes "/sys/memory/x") (codes "memory.limit_in_bytes")
    ≡ ok (pos 1048576)
unfolding read_int_val_file read_in equal trim_space parse_int
limit_read = refl

usage_read :
    read_int_val_file stat_files (codes "/sys/memory/x") (codes "memory.usage_in_bytes")
    ≡ ok (pos 8192)
unfolding read_int_val_file read_in equal trim_space parse_int
usage_read = refl

v1_memory_stats-render_example :
    v1_memory_stats whole stat_files own
    ≡ ok (exact_v1_stats stat_lines oom_lines (pos 1048576) (pos 8192), pos 1048576)
v1_memory_stats-render_example =
    v1_memory_stats-render whole stat_files own own stat_lines oom_lines (pos 1048576) (pos 8192)
      own_found oom_control_read oom_lines-IsItem limit_read usage_read memory_stat_read
      stat_lines-IsItem
