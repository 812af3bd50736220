-- ===== src/Tests/Limits.antt =====
-- A process's cgroups and limits at concrete files.
use procstats.Base.{
  ◌≡◌, refl, true, false, [], ◌∷◌, some, arith, Bytes, codes, equal, All, ok, err, if◌then◌else◌,
  inl, inr,
}
use procstats.Base.Int.{pos}
use procstats.Cgresolver.CgPath.Walk.{IsName, at, visited}
use procstats.Cgresolver.CgPath.{v2, cgroup2_mode, CGroupPath}
use procstats.Cgresolver.Mountinfo.{Mount, get_cgroup_mounts_from_mountinfo}
use procstats.Cgresolver.ProcCgroup.Table.{parse_cg_subsystems}
use procstats.Cgresolver.ProcCgroup.Chosen.{IsChosen, cg_path-IsChosen}
use procstats.Cgresolver.ProcCgroup.First.{IsPassed, cg_path-rooted}
use procstats.Cgresolver.ProcCgroup.Directory.{mounted_path-directory_in}
use procstats.Cgresolver.ProcCgroup.Mounted.{in_mount}
use procstats.Cgresolver.ProcCgroup.Resolve.{self_subsystem_path}
use procstats.Cgresolver.ProcCgroup.{
  CgProcHierarchy, mounted_path, is_mount_of, cg_path, equal_lists, parse_proc_pid_cgroup,
}
use procstats.Cgrouplimits.Search.Least.{IsStrict}
use procstats.Tests.Parser.{whole}
use procstats.Cgrouplimits.MemLimit.Least.{limits_read, get_cgroup_memory_limit-IsLimitOf}
use procstats.Cgrouplimits.MemLimit.Minimum.{IsLimitOf}
use procstats.Cgrouplimits.MemLimit.{limit_file, get_cgroup_memory_limit}
use procstats.Go.Files.{FileSystem, not_exist}
use procstats.Go.Paths.Clean.{IsElement}
use procstats.Go.Paths.{join, rel}
use procstats.Go.Spaces.{fields, trim_space}
use procstats.Go.Strings.{trim_suffix, split, split_n, trim_left, has_prefix}
use procstats.Go.Strconv.{parse_int, parse_bool}

abbrev pub files : FileSystem
files path =
    if equal path (codes "/proc/cgroups")
    then ok
        (codes "#subsys_name\thierarchy\tnum_cgroups\tenabled\ncpu\t0\t70\t1\nmemory\t0\t70\t1\n")
    else if equal path (codes "/proc/self/cgroup")
    then ok (codes "0::/a/b\n")
    else if equal path (codes "/proc/self/mountinfo")
    then ok (codes "29 28 0:26 / /sys/fs/cgroup rw - cgroup2 cgroup2 rw\n")
    else if equal path (codes "/sys/fs/cgroup/a/b/memory.max")
    then ok (codes "max\n")
    else if equal path (codes "/sys/fs/cgroup/a/memory.max")
    then ok (codes "1048576\n")
    else err not_exist

pub self_memory :
    self_subsystem_path files (codes "memory")
    ≡ ok (at (codes "/sys/fs/cgroup") v2 (codes "/sys/fs/cgroup") (codes "b" ∷ codes "a" ∷ []))
unfolding self_subsystem_path equal parse_cg_subsystems split fields trim_left equal_lists parse_int
    parse_bool join parse_proc_pid_cgroup trim_space split_n get_cgroup_mounts_from_mountinfo
    cg_path has_prefix rel cgroup2_mode
self_memory = refl

pub mount_bare : trim_suffix (codes "/") (codes "/sys/fs/cgroup") ≡ codes "/sys/fs/cgroup"
unfolding trim_suffix
mount_bare = refl

pub names-IsName : All IsName (codes "b" ∷ codes "a" ∷ [])
names-IsName = ground arith

memory_max : limit_file v2 ≡ some (codes "memory.max")
unfolding limit_file
memory_max = refl

get_cgroup_memory_limit-IsLimitOf_example :
    IsLimitOf
      (limits_read files
        (codes "memory.max")
        (visited (codes "/sys/fs/cgroup") v2 (codes "/sys/fs/cgroup") (codes "b" ∷ codes "a" ∷ [])))
      (get_cgroup_memory_limit files)
get_cgroup_memory_limit-IsLimitOf_example =
    get_cgroup_memory_limit-IsLimitOf (codes "/sys/fs/cgroup") mount_bare v2 files
      (codes "memory.max") (codes "/sys/fs/cgroup") (codes "b" ∷ codes "a" ∷ []) memory_max
      mount_bare names-IsName self_memory

-- A v1 mount of cpu whose root is /docker, and mounts of other parts.
abbrev cpu_mount : Bytes → Mount
cpu_mount root = record {
  mountpoint = codes "/sys/cpu";
  root = root;
  subsystems = codes "cpu" ∷ [];
  cgroup_v2 = false;
}

abbrev process : Bytes → CgProcHierarchy
process path = record {
  hierarchy_id = pos 4;
  subsystems_csv = codes "cpu";
  subsystems = codes "cpu" ∷ [];
  path = path;
}

mount-IsElement : All IsElement (codes "sys" ∷ codes "cpu" ∷ [])
mount-IsElement = ground arith

docker-IsElement : All IsElement (codes "docker" ∷ [])
docker-IsElement = ground arith

docker_x-IsElement : All IsElement (codes "docker" ∷ codes "x" ∷ [])
docker_x-IsElement = ground arith

x-IsElement : All IsElement (codes "x" ∷ [])
x-IsElement = ground arith

mounted_path-directory_in_example :
    mounted_path (cpu_mount (codes "/docker/x")) (codes "/docker")
    ≡ some (in_mount (cpu_mount (codes "/docker/x")) (codes "/sys"))
unfolding equal
mounted_path-directory_in_example =
    mounted_path-directory_in (cpu_mount (codes "/docker/x")) (codes "sys") (codes "cpu" ∷ [])
      mount-IsElement refl (codes "docker" ∷ codes "x" ∷ []) (codes "docker" ∷ [])
      docker_x-IsElement docker-IsElement refl

cpu-is_mount_of : is_mount_of (process (codes "/docker/x")) (cpu_mount (codes "/docker")) ≡ true
unfolding is_mount_of has_prefix equal
cpu-is_mount_of = refl

abbrev other_mount : Mount
other_mount = record {
  mountpoint = codes "/m";
  root = codes "/../x";
  subsystems = [];
  cgroup_v2 = true;
}

other-IsPassed : IsPassed (process (codes "/docker/x")) other_mount
unfolding is_mount_of has_prefix
other-IsPassed = inl refl

cg_path-rooted_example :
    cg_path (process (codes "/docker/x")) (other_mount ∷ cpu_mount (codes "/docker") ∷ [])
    ≡ ok (in_mount (cpu_mount (codes "/docker")) (codes "/sys/cpu/x"))
cg_path-rooted_example =
    cg_path-rooted (process (codes "/docker/x")) (other_mount ∷ []) (cpu_mount (codes "/docker")) []
      (codes "sys") (codes "cpu" ∷ []) (codes "docker" ∷ []) (codes "x" ∷ []) (other-IsPassed, tt)
      cpu-is_mount_of mount-IsElement docker-IsElement x-IsElement refl refl refl

cg_path-IsChosen_example :
    IsChosen
      (process (codes "/docker/x"))
      (codes "docker" ∷ codes "x" ∷ [])
      (other_mount ∷ cpu_mount (codes "/docker") ∷ [])
      (cg_path (process (codes "/docker/x")) (other_mount ∷ cpu_mount (codes "/docker") ∷ []))
cg_path-IsChosen_example =
    cg_path-IsChosen (process (codes "/docker/x")) (codes "docker" ∷ codes "x" ∷ [])
      docker_x-IsElement refl (other_mount ∷ cpu_mount (codes "/docker") ∷ [])
      (
        inl (codes "/x", refl),
        (
          inr (
            codes "sys",
            codes "cpu" ∷ [],
            codes "docker" ∷ [],
            (mount-IsElement, docker-IsElement, refl, refl),
          ),
          tt,
        ),
      )

-- A limit of one CPU and a half.
abbrev cpu_files : FileSystem
cpu_files path =
    if equal path (codes "/sys/fs/cgroup/a/cpu.max")
    then ok (codes "150000 100000\n")
    else err not_exist

abbrev pub cpu_path : CGroupPath
cpu_path = at (codes "/sys/fs/cgroup") v2 (codes "/sys/fs/cgroup") (codes "a" ∷ [])

-- The same files with the rest that the limit needs, where only the leaf has a limit.
abbrev pub all_files : FileSystem
all_files path = elim (cpu_files path) [
  | ok s ↦ ok s
  | err e ↦ if equal path (codes "/proc/self/cgroup") then ok (codes "0::/a\n") else files path
]

pub self_cpu : self_subsystem_path all_files (codes "cpu") ≡ ok cpu_path
unfolding self_subsystem_path equal parse_cg_subsystems split fields trim_left equal_lists parse_int
    parse_bool join parse_proc_pid_cgroup trim_space split_n get_cgroup_mounts_from_mountinfo
    cg_path has_prefix rel cgroup2_mode
self_cpu = refl

pub whole-IsStrict : IsStrict whole.lt
whole-IsStrict = record { irrefl = λ a. ground arith; trans = λ a b c h k. ground arith }

pub a-IsName : All IsName (codes "a" ∷ [])
a-IsName = ground arith
