-- ===== src/Cgresolver/ProcCgroup/Resolve.antt =====
-- `subsystemPath` of cgresolver/cg_path.go, with the functions of cgresolver/ that read the files it
-- needs.
use procstats.Base.{
  Bool, false, List, [], ◌∷◌, Option, none, some, ◌==◌, if◌then◌else◌, Bytes, codes, equal, Result,
  ok, err, ◌>>=◌, require,
}
use procstats.Base.Int.{ℤ, pos, negsuc}
use procstats.Cgresolver.CgPath.{CGroupPath}
use procstats.Cgresolver.Mountinfo
use procstats.Cgresolver.Mountinfo.{Mount, get_cgroup_mounts_from_mountinfo}
use procstats.Cgresolver.ProcCgroup
use procstats.Cgresolver.ProcCgroup.Table.{CGroupSubsystem, parse_cg_subsystems}
use procstats.Cgresolver.ProcCgroup.{CgProcHierarchy, parse_proc_pid_cgroup, cg_path}
use procstats.Go.Files.{ReadError, FileSystem}
use procstats.Go.Paths.{join}
use procstats.Go.Strconv.{format_int}

-- Where `subsystemPath` gives up.
pub data Error : Type 0 where
  read_failed : ReadError → Error
  parse_failed : ProcCgroup.Error → Error
  mounts_failed : Mountinfo.Error → Error
  no_subsystem no_controller : Error

abbrev pub read : FileSystem → Bytes → Result Error Bytes
read fs path = elim (fs path) [ ok s ↦ ok s | err e ↦ err (read_failed e) ]

abbrev pub parsed : {A : Type 0} → Result ProcCgroup.Error A → Result Error A
parsed (ok a) = ok a
parsed (err e) = err (parse_failed e)

abbrev pub mounted : {A : Type 0} → Result Mountinfo.Error A → Result Error A
mounted (ok a) = ok a
mounted (err e) = err (mounts_failed e)

-- `ParseReadCGSubsystems`
unfoldable pub parse_read_cg_subsystems : FileSystem → Result Error (List CGroupSubsystem)
parse_read_cg_subsystems fs = do
  proc_cg ← read fs (codes "/proc/cgroups")
  parsed (parse_cg_subsystems proc_cg)

-- `resolveProcCGControllers(pid)`
unfoldable pub resolve_proc_cg_controllers :
    FileSystem → Bytes → Result Error (List CgProcHierarchy)
resolve_proc_cg_controllers fs pid = do
  content ← read fs (join (codes "/proc") (join pid (codes "cgroup")))
  parsed (parse_proc_pid_cgroup content)

-- `SelfCGSubsystems` and `PidCGSubsystems`
unfoldable pub self_cg_subsystems : FileSystem → Result Error (List CgProcHierarchy)
unfolding resolve_proc_cg_controllers
self_cg_subsystems fs = resolve_proc_cg_controllers fs (codes "self")

unfoldable pub pid_cg_subsystems : FileSystem → ℤ → Result Error (List CgProcHierarchy)
unfolding resolve_proc_cg_controllers
pid_cg_subsystems fs pid = resolve_proc_cg_controllers fs (format_int pid)

-- `CGroupMountInfo`
unfoldable pub cgroup_mount_info : FileSystem → Result Error (List Mount)
cgroup_mount_info fs = do
  content ← read fs (codes "/proc/self/mountinfo")
  mounted (get_cgroup_mounts_from_mountinfo content)

abbrev pub equal_ids : ℤ → ℤ → Bool
equal_ids (pos a) (pos b) = a == b
equal_ids (negsuc a) (negsuc b) = a == b
equal_ids (pos a) (negsuc b) = false
equal_ids (negsuc a) (pos b) = false

-- `slices.IndexFunc`, giving the element.
unfoldable pub find_subsystem : Bytes → List CGroupSubsystem → Option CGroupSubsystem
find_subsystem name [] = none
find_subsystem name (c ∷ cs) =
    let later = find_subsystem name cs in if equal c.subsys name then some c else later

unfoldable pub find_controller : ℤ → List CgProcHierarchy → Option CgProcHierarchy
find_controller h_id [] = none
find_controller h_id (c ∷ cs) =
    let later = find_controller h_id cs in if equal_ids c.hierarchy_id h_id then some c else later

-- `subsystemPath(procSubDir, subsystem)`
unfoldable pub subsystem_path : FileSystem → Bytes → Bytes → Result Error CGroupPath
unfolding parse_read_cg_subsystems resolve_proc_cg_controllers cgroup_mount_info find_subsystem
    find_controller
subsystem_path fs proc_sub_dir subsystem = do
  cg_sub_syses ← parse_read_cg_subsystems fs
  sub ← require (find_subsystem subsystem cg_sub_syses) no_subsystem
  proc_cgs ← resolve_proc_cg_controllers fs proc_sub_dir
  controller ← require (find_controller sub.hierarchy proc_cgs) no_controller
  mounts ← cgroup_mount_info fs
  parsed (cg_path controller mounts)

-- `SelfSubsystemPath` and `PIDSubsystemPath`
unfoldable pub self_subsystem_path : FileSystem → Bytes → Result Error CGroupPath
unfolding subsystem_path
self_subsystem_path fs subsystem = subsystem_path fs (codes "self") subsystem

unfoldable pub pid_subsystem_path : FileSystem → ℤ → Bytes → Result Error CGroupPath
unfolding subsystem_path
pid_subsystem_path fs pid subsystem = subsystem_path fs (format_int pid) subsystem
