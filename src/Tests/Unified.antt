-- ===== src/Tests/Unified.antt =====
-- A process in a hierarchy of cgroup v2, at concrete files.
use procstats.Base.{
  ◌≡◌, refl, inl, true, List, [], ◌∷◌, none, some, arith, Bytes, codes, equal, All, ok, err, map,
  if◌then◌else◌,
}
use procstats.Base.Int.{pos}
use procstats.Cgresolver.CgPath.Walk.{visited}
use procstats.Cgresolver.CgPath.{v2, cgroup2_mode}
use procstats.Cgresolver.Mountinfo.File.{mountinfo, row_mounts}
use procstats.Cgresolver.Mountinfo.Rows.{Row, IsRow}
use procstats.Cgresolver.Mountinfo.{Mount, option_subsystems}
use procstats.Cgresolver.ProcCgroup.Cgroups.{cgroups_file, IsSubsystem}
use procstats.Cgresolver.ProcCgroup.Found.{IsFirstOf, HasSubsys, here, behind}
use procstats.Cgresolver.ProcCgroup.Usable.{IsOutside}
use procstats.Cgresolver.ProcCgroup.Composed.{IsProcess, IsOnMount}
use procstats.Cgresolver.ProcCgroup.Lines.{Entry, IsEntry, proc_cgroup_file, entry_hierarchy}
use procstats.Cgresolver.ProcCgroup.Resolve.{find_controller}
use procstats.Cgresolver.ProcCgroup.Table.{CGroupSubsystem}
use procstats.Cgresolver.ProcCgroup.{is_mount_of, equal_lists}
use procstats.Cgrouplimits.CpuLimit.Kernel.{
  CpuFiles, max_missing, max_file, limit_set, HaveCpuFiles, get_cgroup_cpu_limit-IsOnMount,
}
use procstats.Cgrouplimits.CpuLimit.Max.{cpu_max}
use procstats.Cgrouplimits.CpuLimit.Minimum.{IsLimitOf}
use procstats.Cgrouplimits.CpuLimit.{get_cgroup_cpu_limit}
use procstats.Cgrouplimits.MemLimit.IntFile.{number, content}
use procstats.Go.Files.{FileSystem, not_exist}
use procstats.Go.Paths.Clean.{IsElement}
use procstats.Go.Paths.{join}
use procstats.Go.Strings.{has_prefix, split}
use procstats.Pparser.Dict.Render.{render}
use procstats.Tests.Files.{mem_entry, one_entry}
use procstats.Tests.Limits.{whole-IsStrict}
use procstats.Tests.Parser.{whole}

abbrev pub subsystems : List CGroupSubsystem
subsystems =
    record { subsys = codes "cpu"; hierarchy = pos 0; num_cgroups = pos 120; enabled = true }
    ∷ record { subsys = codes "memory"; hierarchy = pos 0; num_cgroups = pos 120; enabled = true }
    ∷ []

subsystems-IsSubsystem : All IsSubsystem subsystems
subsystems-IsSubsystem = ground arith

abbrev pub entries : List Entry
entries = record { id = 0; controllers = []; path = codes "/user/a" } ∷ []

entries-IsEntry : All IsEntry entries
entries-IsEntry = (
  record {
    id_fits = omega arith;
    names = tt;
    path_line = ground arith;
    last = b'a';
    before = codes "/resu/";
    path_ends = refl;
    last_graphic = omega arith;
  },
  tt,
)

abbrev pub unified_row : Row
unified_row = record {
  id = codes "30";
  parent = codes "24";
  device = codes "0:26";
  root = codes "/";
  mountpoint = codes "/sys/cgroup";
  optional = codes "rw" ∷ codes "shared:9" ∷ [];
  fs_type = codes "cgroup2";
  source = codes "cgroup2";
  super_options = codes "rw" ∷ [];
}

unified_row-IsRow : All IsRow (unified_row ∷ [])
unified_row-IsRow = ground arith

abbrev unified_mount : Mount
unified_mount = record {
  mountpoint = codes "/sys/cgroup";
  root = codes "/";
  subsystems = [];
  cgroup_v2 = true;
}

unified_mounts : row_mounts (unified_row ∷ []) ≡ unified_mount ∷ []
unfolding equal option_subsystems
unified_mounts = refl

abbrev pub unified_files : FileSystem
unified_files path =
    if equal path (codes "/proc/cgroups")
    then ok (cgroups_file subsystems)
    else if equal path (codes "/proc/self/cgroup")
    then ok (proc_cgroup_file entries)
    else if equal path (codes "/proc/self/mountinfo")
    then ok (mountinfo (unified_row ∷ []))
    else if equal path (codes "/sys/cgroup/user/a/cpu.max")
    then ok (cpu_max none 100000)
    else if equal path (codes "/sys/cgroup/user/cpu.max")
    then ok (cpu_max (some 150000) 100000)
    else if equal path (codes "/sys/cgroup/user/a/cpu.stat")
    then ok (render b' ' one_entry)
    else if equal path (codes "/sys/cgroup/user/cpu.stat")
    then ok (render b' ' [])
    else if equal path (codes "/sys/cgroup/user/a/memory.stat")
    then ok (render b' ' mem_entry)
    else if equal path (codes "/sys/cgroup/user/a/memory.events")
    then ok (render b' ' [])
    else if equal path (codes "/sys/cgroup/user/a/memory.current")
    then content (number (pos 8192))
    else if equal path (codes "/sys/cgroup/user/a/memory.max")
    then content (number (pos 65536))
    else if equal path (codes "/sys/cgroup/user/memory.stat")
    then ok (render b' ' [])
    else err not_exist

pub files-IsProcess : IsProcess unified_files (codes "self") subsystems entries (unified_row ∷ [])
unfolding equal join split
files-IsProcess = record {
  cgroups_read = refl;
  subsystems = subsystems-IsSubsystem;
  cgroup_read = refl;
  entries = entries-IsEntry;
  mountinfo_read = refl;
  rows = unified_row-IsRow;
}

mountpoint_names : All IsElement (codes "sys" ∷ codes "cgroup" ∷ [])
mountpoint_names = ground arith

path_names : All IsElement (codes "user" ∷ codes "a" ∷ [])
path_names = ground arith

abbrev named : Bytes → CGroupSubsystem
named name = record { subsys = name; hierarchy = pos 0; num_cgroups = pos 120; enabled = true }

unified_inside : ¬ IsOutside unified_mount
unified_inside (rest, e) = ground arith

pub unified-IsOnMount :
    (name : Bytes)
    → IsFirstOf (HasSubsys name) (named name) subsystems
    → IsOnMount name subsystems entries
        (unified_row ∷ [])
        (codes "sys")
        (codes "cgroup" ∷ [])
        (codes "user" ∷ codes "a" ∷ [])
        v2
unfolding find_controller equal is_mount_of has_prefix equal_lists cgroup2_mode option_subsystems
unified-IsOnMount name found = record {
  row = named name;
  row_found = found;
  controller = entry_hierarchy (record { id = 0; controllers = []; path = codes "/user/a" });
  controller_found = here refl;
  before = [];
  mount = unified_mount;
  after = [];
  mounts = unified_mounts;
  passed = tt;
  inside = unified_inside;
  of_hierarchy = inl (refl, refl);
  root_names = [];
  mountpoint_clean = mountpoint_names;
  root_clean = tt;
  path_clean = path_names;
  mountpoint_is = refl;
  root_is = refl;
  path_is = refl;
  mode_is = refl;
}

pub cpu_found : IsFirstOf (HasSubsys (codes "cpu")) (named (codes "cpu")) subsystems
cpu_found = here refl

pub memory_found : IsFirstOf (HasSubsys (codes "memory")) (named (codes "memory")) subsystems
memory_found = behind (ground arith) (here refl)

-- No quota in the cgroup itself, one in its parent, and no file at the mount point.
abbrev cpu_max_files : List CpuFiles
cpu_max_files = max_file none 100000 ∷ max_file (some 150000) 100000 ∷ max_missing not_exist ∷ []

have_cpu_max :
    HaveCpuFiles whole unified_files
      (visited (codes "/sys/cgroup") v2 (codes "/sys/cgroup") (codes "a" ∷ codes "user" ∷ []))
      cpu_max_files
unfolding equal join split
have_cpu_max = (
  ((refl, refl), tt, omega arith),
  (((refl, refl), omega arith, omega arith), ((refl, refl), tt)),
)

get_cgroup_cpu_limit-IsOnMount_example :
    IsLimitOf whole (map (limit_set whole) cpu_max_files) (get_cgroup_cpu_limit whole unified_files)
get_cgroup_cpu_limit-IsOnMount_example =
    get_cgroup_cpu_limit-IsOnMount whole unified_files whole-IsStrict subsystems entries
      (unified_row ∷ []) (codes "sys") (codes "cgroup" ∷ []) (codes "user" ∷ codes "a" ∷ []) v2
      cpu_max_files files-IsProcess (unified-IsOnMount (codes "cpu") cpu_found) have_cpu_max
