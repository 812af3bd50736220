-- ===== src/Tests/V1Cpu.antt =====
-- The CPU statistics of a v1 cgroup at concrete files.
use procstats.Base.{
  ◌≡◌, refl, List, [], ◌∷◌, some, arith, codes, equal, All, ok, err, if◌then◌else◌,
}
use procstats.Base.Int.{pos, ◌*ℤ◌}
use procstats.Cgresolver.CgPath.Walk.{at}
use procstats.Cgresolver.CgPath.{v1, CGroupPath, cgroup2_mode}
use procstats.Cgresolver.Mountinfo.{get_cgroup_mounts_from_mountinfo}
use procstats.Cgresolver.ProcCgroup.Resolve.{self_subsystem_path}
use procstats.Cgresolver.ProcCgroup.Table.{parse_cg_subsystems}
use procstats.Cgresolver.ProcCgroup.{cg_path, equal_lists, parse_proc_pid_cgroup}
use procstats.Cgrouplimits.CpuLimit.Kernel.{cfs_files, HasCpuFiles}
use procstats.Cgrouplimits.CpuLimit.Max.{limit_of}
use procstats.Cgrouplimits.CpuUsage.RenderedV1.{
  Acct, ticks, time_of, HasAcct, get_cgroup_cpu_stats_single-v1,
}
use procstats.Cgrouplimits.CpuUsage.{get_cgroup_cpu_stats_single}
use procstats.Cgrouplimits.MemLimit.IntFile.{number, content}
use procstats.Go.Files.{FileSystem, not_exist, read_in}
use procstats.Go.Paths.{join, rel}
use procstats.Go.Spaces.{fields, trim_space}
use procstats.Go.Strconv.{parse_int, parse_bool}
use procstats.Go.Strings.{split, split_n, trim_left, has_prefix}
use procstats.Pparser.Dict.Amounts.{amount_of}
use procstats.Pparser.Dict.Render.{Item, render, IsItem}
use procstats.Tests.Files.{entry_line, entry_line-IsItem}
use procstats.Tests.Parser.{whole}

abbrev stat_lines : List Item
stat_lines = entry_line (codes "throttled_time") (pos 2500) ∷ []

abbrev acct_lines : List Item
acct_lines = entry_line (codes "user") (pos 3) ∷ entry_line (codes "system") (pos 4) ∷ []

stat_lines-IsItem : All (IsItem b' ') stat_lines
unfolding ◌*ℤ◌
stat_lines-IsItem = (
  entry_line-IsItem (codes "throttled_time") (pos 2500) (ground arith) (ground arith)
      (omega arith, omega arith) (omega arith, omega arith),
  tt,
)

acct_lines-IsItem : All (IsItem b' ') acct_lines
unfolding ◌*ℤ◌
acct_lines-IsItem = (
  entry_line-IsItem (codes "user") (pos 3) (ground arith) (ground arith) (omega arith, omega arith)
      (omega arith, omega arith),
  (
    entry_line-IsItem (codes "system") (pos 4) (ground arith) (ground arith)
        (omega arith, omega arith) (omega arith, omega arith),
    tt,
  ),
)

abbrev v1_files : FileSystem
v1_files path =
    if equal path (codes "/proc/cgroups")
    then ok (codes "#subsys_name\thierarchy\tnum_cgroups\tenabled\ncpuacct\t2\t9\t1\n")
    else if equal path (codes "/proc/self/cgroup")
    then ok (codes "2:cpu,cpuacct:/a\n")
    else if equal path (codes "/proc/self/mountinfo")
    then ok (codes "30 24 0:26 / /sys/cpu rw - cgroup cgroup rw,cpu,cpuacct\n")
    else if equal path (codes "/sys/cpu/a/cpu.cfs_quota_us")
    then content (number (pos 150000))
    else if equal path (codes "/sys/cpu/a/cpu.cfs_period_us")
    then content (number (pos 100000))
    else if equal path (codes "/sys/cpu/a/cpu.stat")
    then ok (render b' ' stat_lines)
    else if equal path (codes "/sys/cpu/a/cpuacct.stat")
    then ok (render b' ' acct_lines)
    else err not_exist

abbrev own : CGroupPath
own = at (codes "/sys/cpu") v1 (codes "/sys/cpu") (codes "a" ∷ [])

own_found : self_subsystem_path v1_files (codes "cpuacct") ≡ ok own
unfolding self_subsystem_path equal parse_cg_subsystems split fields trim_left equal_lists parse_int
    parse_bool join parse_proc_pid_cgroup trim_space split_n get_cgroup_mounts_from_mountinfo
    cg_path has_prefix rel cgroup2_mode
own_found = refl

own-HasCpuFiles : HasCpuFiles whole v1_files own (cfs_files (some 150000) 100000)
unfolding equal read_in
own-HasCpuFiles = ((refl, refl), refl, omega arith, omega arith)

stat_read : v1_files (join (codes "/sys/cpu/a") (codes "cpu.stat")) ≡ ok (render b' ' stat_lines)
unfolding equal join split
stat_read = refl

throttled : amount_of stat_lines (codes "throttled_time") ≡ pos 2500
unfolding equal ◌*ℤ◌
throttled = refl

abbrev acct : Acct
acct = ticks acct_lines 3 4

own-HasAcct : HasAcct whole v1_files (codes "/sys/cpu/a") acct
unfolding equal read_in ◌*ℤ◌
own-HasAcct = (refl, refl, acct_lines-IsItem, refl, omega arith, refl, omega arith)

get_cgroup_cpu_stats_single-v1_example :
    get_cgroup_cpu_stats_single whole v1_files own
    ≡ ok (
      record { limit = pos 0; usage = time_of acct; throttled_time = pos 2500 },
      limit_of whole (some 150000) 100000,
    )
get_cgroup_cpu_stats_single-v1_example =
    get_cgroup_cpu_stats_single-v1 whole v1_files own own (some 150000) 100000 stat_lines 2500 acct
      own-HasCpuFiles stat_read stat_lines-IsItem throttled (omega arith) own_found own-HasAcct
