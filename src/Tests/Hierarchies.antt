-- ===== src/Tests/Hierarchies.antt =====
-- A process's hierarchies and its memory cgroup at concrete files.
use procstats.Base.{
  ◌≡◌, ◌≢◌, refl, inr, true, false, List, [], ◌∷◌, none, some, map, arith, codes, equal, lookup,
  All, ok, err, if◌then◌else◌,
}
use procstats.Base.Int.{pos}
use procstats.Cgresolver.CgPath.Walk.{at, visited}
use procstats.Cgresolver.CgPath.{v1, cgroup2_mode}
use procstats.Cgresolver.Mountinfo.File.{mountinfo, row_mounts}
use procstats.Cgresolver.Mountinfo.Rows.{Row, IsRow}
use procstats.Cgresolver.Mountinfo.{Mount, option_subsystems}
use procstats.Cgresolver.ProcCgroup.Cgroups.{cgroups_file, IsSubsystem, parse_cg_subsystems-file}
use procstats.Cgresolver.ProcCgroup.Found.{here, behind}
use procstats.Cgresolver.ProcCgroup.Usable.{IsOutside}
use procstats.Cgresolver.ProcCgroup.Composed.{IsProcess, IsOnMount, subsystem_path-IsOnMount}
use procstats.Cgresolver.ProcCgroup.Lines.{Entry, IsEntry, proc_cgroup_file, entry_hierarchy}
use procstats.Cgresolver.ProcCgroup.Mapped.{last_holder, map_subsystems-last_holder}
use procstats.Cgresolver.ProcCgroup.NoPanic.{parse_cg_subsystems_safe}
use procstats.Cgresolver.ProcCgroup.Resolve.{find_subsystem, find_controller, subsystem_path}
use procstats.Cgresolver.ProcCgroup.Table.{CGroupSubsystem, parse_cg_subsystems}
use procstats.Cgresolver.ProcCgroup.Whole.{parse_proc_pid_cgroup-file}
use procstats.Cgresolver.ProcCgroup.{
  out_of_range, is_mount_of, equal_lists, parse_proc_pid_cgroup, map_subsystems,
  cgroup_v2_quasi_subsystem_name,
}
use procstats.Cgrouplimits.MemLimit.IntFile.{IntFile, missing, number, value}
use procstats.Cgrouplimits.MemLimit.Kernel.{HaveInt, get_cgroup_memory_limit-IsOnMount}
use procstats.Cgrouplimits.MemLimit.Minimum.{IsLimitOf}
use procstats.Cgrouplimits.MemLimit.{limit_file, get_cgroup_memory_limit}
use procstats.Go.Files.{FileSystem, not_exist, read_in}
use procstats.Go.Paths.Clean.{IsElement}
use procstats.Go.Paths.{join}
use procstats.Go.Strconv.{format_int}
use procstats.Go.Strings.{has_prefix, split}

abbrev pub subsystems : List CGroupSubsystem
subsystems =
    record { subsys = codes "cpu"; hierarchy = pos 3; num_cgroups = pos 70; enabled = true }
    ∷ record { subsys = codes "memory"; hierarchy = pos 4; num_cgroups = pos 81; enabled = true }
    ∷ []

abbrev pub entries : List Entry
entries =
    record { id = 4; controllers = codes "memory" ∷ []; path = codes "/docker/x" }
    ∷ record { id = 3; controllers = codes "cpu" ∷ codes "cpuacct" ∷ []; path = codes "/docker" }
    ∷ record { id = 0; controllers = []; path = codes "/a:b c" }
    ∷ []

pub subsystems-IsSubsystem : All IsSubsystem subsystems
subsystems-IsSubsystem = ground arith

pub entries-IsEntry : All IsEntry entries
entries-IsEntry = (
  record {
    id_fits = omega arith;
    names = ground arith;
    path_line = ground arith;
    last = b'x';
    before = codes "/rekcod/";
    path_ends = refl;
    last_graphic = omega arith;
  },
  (
    record {
      id_fits = omega arith;
      names = ground arith;
      path_line = ground arith;
      last = b'r';
      before = codes "ekcod/";
      path_ends = refl;
      last_graphic = omega arith;
    },
    (
      record {
        id_fits = omega arith;
        names = tt;
        path_line = ground arith;
        last = b'c';
        before = codes " b:a/";
        path_ends = refl;
        last_graphic = omega arith;
      },
      tt,
    ),
  ),
)

parse_cg_subsystems-file_example : parse_cg_subsystems (cgroups_file subsystems) ≡ ok subsystems
parse_cg_subsystems-file_example = parse_cg_subsystems-file subsystems subsystems-IsSubsystem

parse_proc_pid_cgroup-file_example :
    parse_proc_pid_cgroup (proc_cgroup_file entries) ≡ ok (map entry_hierarchy entries)
parse_proc_pid_cgroup-file_example = parse_proc_pid_cgroup-file entries entries-IsEntry

parse_cg_subsystems_safe_example :
    parse_cg_subsystems (codes "#hierarchy\tsubsys_name\n1\n") ≢ err out_of_range
parse_cg_subsystems_safe_example = parse_cg_subsystems_safe (codes "#hierarchy\tsubsys_name\n1\n")

map_subsystems-last_holder_example :
    lookup cgroup_v2_quasi_subsystem_name (map_subsystems (map entry_hierarchy entries))
    ≡ last_holder cgroup_v2_quasi_subsystem_name 0 (map entry_hierarchy entries) none
map_subsystems-last_holder_example =
    map_subsystems-last_holder cgroup_v2_quasi_subsystem_name (map entry_hierarchy entries)

abbrev pub memory_row : Row
memory_row = record {
  id = codes "30";
  parent = codes "28";
  device = codes "0:27";
  root = codes "/docker";
  mountpoint = codes "/sys/memory";
  optional = [];
  fs_type = codes "cgroup";
  source = codes "cgroup";
  super_options = codes "rw" ∷ codes "memory" ∷ [];
}

pub memory_row-IsRow : All IsRow (memory_row ∷ [])
memory_row-IsRow = ground arith

abbrev memory_mount : Mount
memory_mount = record {
  mountpoint = codes "/sys/memory";
  root = codes "/docker";
  subsystems = codes "memory" ∷ [];
  cgroup_v2 = false;
}

memory_mounts : row_mounts (memory_row ∷ []) ≡ memory_mount ∷ []
unfolding equal option_subsystems
memory_mounts = refl

abbrev pub files : FileSystem
files path =
    if equal path (codes "/proc/cgroups")
    then ok (cgroups_file subsystems)
    else if equal path (codes "/proc/self/cgroup")
    then ok (proc_cgroup_file entries)
    else if equal path (codes "/proc/self/mountinfo")
    then ok (mountinfo (memory_row ∷ []))
    else if equal path (codes "/sys/memory/x/memory.limit_in_bytes")
    then ok (codes "1048576\n")
    else err not_exist

files-IsProcess : IsProcess files (codes "self") subsystems entries (memory_row ∷ [])
unfolding equal join split
files-IsProcess = record {
  cgroups_read = refl;
  subsystems = subsystems-IsSubsystem;
  cgroup_read = refl;
  entries = entries-IsEntry;
  mountinfo_read = refl;
  rows = memory_row-IsRow;
}

memory_names : All IsElement (codes "sys" ∷ codes "memory" ∷ [])
memory_names = ground arith

docker_names : All IsElement (codes "docker" ∷ [])
docker_names = ground arith

x_names : All IsElement (codes "x" ∷ [])
x_names = ground arith

memory_inside : ¬ IsOutside memory_mount
memory_inside (rest, e) = ground arith

pub memory-IsOnMount :
    IsOnMount
      (codes "memory")
      subsystems
      entries
      (memory_row ∷ [])
      (codes "sys")
      (codes "memory" ∷ [])
      (codes "x" ∷ [])
      v1
unfolding find_subsystem find_controller equal is_mount_of has_prefix equal_lists cgroup2_mode
    option_subsystems
memory-IsOnMount = record {
  row = record { subsys = codes "memory"; hierarchy = pos 4; num_cgroups = pos 81; enabled = true };
  row_found = behind (ground arith) (here refl);
  controller =
      entry_hierarchy
        (record { id = 4; controllers = codes "memory" ∷ []; path = codes "/docker/x" });
  controller_found = here refl;
  before = [];
  mount = memory_mount;
  after = [];
  mounts = memory_mounts;
  passed = tt;
  inside = memory_inside;
  of_hierarchy = inr refl;
  root_names = codes "docker" ∷ [];
  mountpoint_clean = memory_names;
  root_clean = docker_names;
  path_clean = x_names;
  mountpoint_is = refl;
  root_is = refl;
  path_is = refl;
  mode_is = refl;
}

subsystem_path-IsOnMount_example :
    subsystem_path files (codes "self") (codes "memory")
    ≡ ok (at (codes "/sys/memory") v1 (codes "/sys/memory") (codes "x" ∷ []))
subsystem_path-IsOnMount_example =
    subsystem_path-IsOnMount files (codes "self") (codes "memory") subsystems entries
      (memory_row ∷ []) (codes "sys") (codes "memory" ∷ []) (codes "x" ∷ []) v1 files-IsProcess
      memory-IsOnMount

limit_file-v1 : limit_file v1 ≡ some (codes "memory.limit_in_bytes")
unfolding limit_file
limit_file-v1 = refl

abbrev limit_files : List IntFile
limit_files = number (pos 1048576) ∷ missing not_exist ∷ []

have_limits :
    HaveInt files
      (codes "memory.limit_in_bytes")
      (visited (codes "/sys/memory") v1 (codes "/sys/memory") (codes "x" ∷ []))
      limit_files
unfolding equal read_in join format_int
have_limits = ((refl, omega arith), ((refl, tt), tt))

get_cgroup_memory_limit-IsOnMount_example :
    IsLimitOf (map value limit_files) (get_cgroup_memory_limit files)
get_cgroup_memory_limit-IsOnMount_example =
    get_cgroup_memory_limit-IsOnMount files subsystems entries (memory_row ∷ []) (codes "sys")
      (codes "memory" ∷ []) (codes "x" ∷ []) v1 (codes "memory.limit_in_bytes") limit_files
      files-IsProcess memory-IsOnMount limit_file-v1 have_limits
