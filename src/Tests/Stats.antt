-- ===== src/Tests/Stats.antt =====
-- The statistics and limits of cgroups and of the host at concrete files.
use procstats.Base.{
  inr, List, All, ◌≡◌, ◌≢◌, refl, [], ◌∷◌, arith, codes, equal, Satisfies, ok, err, if◌then◌else◌,
}
use procstats.Base.Int.{ℤ, pos, wrap64, ◌*ℤ◌, ◌+ℤ◌, ◌-ℤ◌, ◌≤ℤ◌}
use procstats.Cgresolver.CgPath.Ends.{for_ancestors_ends}
use procstats.Cgresolver.CgPath.Walk.{at, visited}
use procstats.Cgresolver.CgPath.{out_of_fuel, v2, for_ancestors}
use procstats.Cgrouplimits.Cpu.Bounds.{IsCpus}
use procstats.Cgrouplimits.Cpu.Within.{IsPositive, IsWithin, cpu-IsWithin}
use procstats.Cgrouplimits.CpuLimit.Least.{cpu_limits}
use procstats.Cgrouplimits.CpuLimit.{get_cgroup_cpu_limit_single}
use procstats.Cgrouplimits.CpuUsage.{get_cgroup_cpu_stats}
use procstats.Cgrouplimits.Cpu.{cpu}
use procstats.Cgrouplimits.CpuUsage.Least as CpuLeast
use procstats.Cgrouplimits.CpuUsage.Walk as CpuWalk
use procstats.Cgrouplimits.Memory.Within.{IsNotZero, mem_stats-IsWithin}
use procstats.Cgrouplimits.Memory.Within
use procstats.Cgrouplimits.MemUsage.Least.{Read, stats_read}
use mathlib.Core.List.{Memᴰ}
use procstats.Cgresolver.ProcCgroup.Resolve.{self_subsystem_path}
use procstats.Cgrouplimits.Memory.{mem_stats}
use procstats.Cgrouplimits.Platform.{linux}
use procstats.Cgrouplimits.MemLimit.Bounds.{IsLimit, get_cgroup_memory_limit-IsLimit}
use procstats.Cgrouplimits.MemLimit.{read_int_val_file, get_cgroup_memory_limit}
use procstats.Cgrouplimits.MemUsage.Least as MemLeast
use procstats.Cgrouplimits.MemUsage.{
  MemoryStats, get_cgroup_memory_stats_single, get_cgroup_memory_stats,
}
use procstats.Go.Files.{FileSystem}
use procstats.Cgresolver.ProcCgroup.Table.{parse_cg_subsystems}
use procstats.Go.Strings.{split, trim_left, split_n, has_prefix, lines, trim_suffix, before_last}
use procstats.Go.Spaces.{fields, trim_space}
use procstats.Cgresolver.ProcCgroup.{equal_lists, parse_proc_pid_cgroup, cg_path}
use procstats.Go.Strconv.{parse_int, parse_bool}
use procstats.Go.Paths.{join, rel}
use procstats.Cgresolver.Mountinfo.{get_cgroup_mounts_from_mountinfo}
use procstats.Cgresolver.CgPath.{cgroup2_mode}
use procstats.Pparser.Parse.{parse}
use procstats.Pparser.Fields.{zero_struct, int_field}
use procstats.Go.Files.{read_in}
use procstats.Tests.Limits
use procstats.Tests.Limits.{
  self_memory, mount_bare, names-IsName, self_cpu, a-IsName, all_files, whole-IsStrict,
}
use procstats.Tests.Files.{info_line, info_line-IsItem}
use procstats.Cgrouplimits.Host.Rendered.{exact_host_stats, host_mem_stats-render}
use procstats.Pparser.Dict.Render.{render}
use procstats.Tests.Parser.{whole}

for_ancestors_ends_example :
    for_ancestors
      (λ p (n : ℤ). n)
      4
      (record { abs_path = codes "/x"; mount_path = codes "/y"; mode = v2 })
      (pos 0)
    ≢ err out_of_fuel
for_ancestors_ends_example =
    for_ancestors_ends (λ p (n : ℤ). n) 4
      (record { abs_path = codes "/x"; mount_path = codes "/y"; mode = v2 }) (pos 0) (omega arith)

get_cgroup_memory_limit-IsLimit_example : Satisfies IsLimit (get_cgroup_memory_limit Limits.files)
get_cgroup_memory_limit-IsLimit_example = get_cgroup_memory_limit-IsLimit Limits.files

cpu_IsPositive : All (IsPositive whole whole-IsStrict) (
    cpu_limits whole all_files
      (visited (codes "/sys/fs/cgroup") v2 (codes "/sys/fs/cgroup") (codes "a" ∷ [])))
unfolding get_cgroup_cpu_limit_single equal join split fields parse_int
cpu_IsPositive = (inr refl, (tt, tt))

cpu-IsWithin_example :
    IsCpus whole whole-IsStrict.irrefl (pos 4) (cpu whole 4 (linux whole all_files))
    × All (IsWithin whole whole-IsStrict (cpu whole 4 (linux whole all_files))) (
        cpu_limits whole all_files
          (visited (codes "/sys/fs/cgroup") v2 (codes "/sys/fs/cgroup") (codes "a" ∷ [])))
cpu-IsWithin_example =
    cpu-IsWithin whole whole-IsStrict all_files (codes "/sys/fs/cgroup") mount_bare v2 4
      (codes "/sys/fs/cgroup") (codes "a" ∷ []) refl refl mount_bare a-IsName self_cpu
      cpu_IsPositive

get_cgroup_cpu_stats-IsStatsOf_example :
    CpuLeast.IsStatsOf whole whole-IsStrict refl
      (CpuWalk.stats_read whole whole-IsStrict refl all_files
        (visited (codes "/sys/fs/cgroup") v2 (codes "/sys/fs/cgroup") (codes "a" ∷ [])))
      (get_cgroup_cpu_stats whole all_files)
get_cgroup_cpu_stats-IsStatsOf_example =
    CpuWalk.get_cgroup_cpu_stats-IsStatsOf whole whole-IsStrict refl all_files
      (codes "/sys/fs/cgroup") mount_bare v2 (codes "/sys/fs/cgroup") (codes "a" ∷ []) mount_bare
      a-IsName self_cpu

get_cgroup_memory_stats-IsStatsOf_example :
    MemLeast.IsStatsOf
      (MemLeast.stats_read whole Limits.files
        (visited (codes "/sys/fs/cgroup") v2 (codes "/sys/fs/cgroup") (codes "b" ∷ codes "a" ∷ [])))
      (get_cgroup_memory_stats whole Limits.files)
get_cgroup_memory_stats-IsStatsOf_example =
    MemLeast.get_cgroup_memory_stats-IsStatsOf whole Limits.files (codes "/sys/fs/cgroup")
      mount_bare v2 (codes "/sys/fs/cgroup") (codes "b" ∷ codes "a" ∷ []) mount_bare names-IsName
      self_memory

-- A cgroup with a limit below the host's memory, at the mount point.
abbrev both_files : FileSystem
both_files path =
    if equal path (codes "/sys/fs/cgroup/a/memory.stat")
    then ok []
    else if equal path (codes "/sys/fs/cgroup/a/memory.events")
    then ok []
    else if equal path (codes "/sys/fs/cgroup/a/memory.current")
    then ok (codes "4096\n")
    else if equal path (codes "/sys/fs/cgroup/a/memory.max")
    then ok (codes "8192\n")
    else if equal path (codes "/proc/meminfo")
    then ok (render b':' info_line)
    else if equal path (codes "/proc/vmstat")
    then ok []
    else all_files path

abbrev cg_stats : MemoryStats
cg_stats = record { total = pos 8192; free = pos 4096; available = pos 4096; oom_kills = pos 0 }

both_meminfo_read : both_files (codes "/proc/meminfo") ≡ ok (render b':' info_line)
unfolding equal
both_meminfo_read = refl

both_vmstat_read : both_files (codes "/proc/vmstat") ≡ ok (render b' ' [])
unfolding equal
both_vmstat_read = refl

both_self_memory :
    self_subsystem_path both_files (codes "memory")
    ≡ ok (at (codes "/sys/fs/cgroup") v2 (codes "/sys/fs/cgroup") (codes "a" ∷ []))
unfolding self_subsystem_path equal parse_cg_subsystems split fields trim_left equal_lists parse_int
    parse_bool join parse_proc_pid_cgroup trim_space split_n get_cgroup_mounts_from_mountinfo
    cg_path has_prefix rel cgroup2_mode
both_self_memory = refl

-- The cgroup below the mount point, and the mount point, which cannot be read.
abbrev both_reads : List Read
both_reads =
    stats_read whole both_files
      (visited (codes "/sys/fs/cgroup") v2 (codes "/sys/fs/cgroup") (codes "a" ∷ []))

both_read : Memᴰ (ok (cg_stats, pos 8192)) both_reads
unfolding get_cgroup_memory_stats_single equal split fields trim_left parse_int join trim_space
    parse lines zero_struct int_field wrap64 ◌*ℤ◌ ◌+ℤ◌ ◌-ℤ◌ read_in trim_suffix before_last
    read_int_val_file
both_read = Memᴰ.head refl

both_IsNotZero : All IsNotZero both_reads
unfolding get_cgroup_memory_stats_single equal split fields trim_left parse_int join trim_space
    parse lines zero_struct int_field wrap64 ◌*ℤ◌ ◌+ℤ◌ ◌-ℤ◌ read_in trim_suffix before_last
    read_int_val_file
both_IsNotZero = (ground arith, (tt, tt))

mem_stats-IsWithin_example :
    (s : MemoryStats) × (mem_stats (linux whole both_files) ≡ ok s)
    × (s.total ≤ℤ (exact_host_stats info_line []).total)
    × All (Within.IsWithin s) both_reads
mem_stats-IsWithin_example =
    mem_stats-IsWithin whole both_files (codes "/sys/fs/cgroup") mount_bare v2
      (codes "/sys/fs/cgroup") (codes "a" ∷ []) (exact_host_stats info_line []) (cg_stats, pos 8192)
      mount_bare a-IsName both_self_memory
      (host_mem_stats-render whole both_files info_line [] both_meminfo_read info_line-IsItem
        both_vmstat_read tt)
      both_read both_IsNotZero
