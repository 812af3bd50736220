-- ===== src/Cgresolver/ProcCgroup/Composed.antt =====
-- `subsystemPath` of cgresolver/cg_path.go on files that the kernel writes: the three parsers together.
use procstats.Base.{
  ◌≡◌, refl, ap, ◌∙◌, List, ◌∷◌, ◌++◌, reverse, some, map, Bytes, codes, All, All-append, Result,
  ok, ◌>>=◌, require,
}
use procstats.Cgresolver.CgPath.Walk.{at}
use procstats.Cgresolver.CgPath.{CgMode, CGroupPath}
use procstats.Cgresolver.Mountinfo.File.{mountinfo, row_mounts, get_cgroup_mounts-mountinfo}
use procstats.Cgresolver.Mountinfo.Rows.{Row, IsRow}
use procstats.Cgresolver.Mountinfo.{Mount}
use procstats.Cgresolver.ProcCgroup.Ancestors.{in_mount-at}
use procstats.Cgresolver.ProcCgroup.Cgroups.{cgroups_file, IsSubsystem, parse_cg_subsystems-file}
use procstats.Cgresolver.ProcCgroup.Chosen.{
  IsPassedOver, all-IsPassed, mount_mode, cgroup2_mode-mount_mode,
}
use procstats.Cgresolver.ProcCgroup.Found.{
  IsFirstOf, HasSubsys, HasId, find_subsystem-first, find_controller-first,
}
use procstats.Cgresolver.ProcCgroup.First.{cg_path-rooted}
use procstats.Cgresolver.ProcCgroup.Usable.{IsOutside, IsOfHierarchy, is_mount_of_iff}
use procstats.Cgresolver.ProcCgroup.Lines.{Entry, IsEntry, proc_cgroup_file, entry_hierarchy}
use procstats.Cgresolver.ProcCgroup.Resolve.{
  Error, no_subsystem, no_controller, read, parsed, parse_read_cg_subsystems,
  resolve_proc_cg_controllers, cgroup_mount_info, find_subsystem, find_controller, subsystem_path,
  self_subsystem_path,
}
use procstats.Cgresolver.ProcCgroup.Table.{CGroupSubsystem}
use procstats.Cgresolver.ProcCgroup.Whole.{parse_proc_pid_cgroup-file}
use procstats.Cgresolver.ProcCgroup.{CgProcHierarchy, cg_path}
use procstats.Go.Files.{FileSystem}
use procstats.Go.Paths.Clean.{IsElement, rooted}
use procstats.Go.Paths.{join}

-- What the files tell, with their parts looked up by name and number.
abbrev pub resolved :
    Bytes → List CGroupSubsystem → List CgProcHierarchy → List Mount → Result Error CGroupPath
resolved subsystem cs hs ms = do
  sub ← require (find_subsystem subsystem cs) no_subsystem
  controller ← require (find_controller sub.hierarchy hs) no_controller
  parsed (cg_path controller ms)

-- The three files, as the kernel writes them for a process.
pub record IsProcess (files : FileSystem) (proc_sub_dir : Bytes) (cs : List CGroupSubsystem)
    (es : List Entry) (rs : List Row) : Type 0 where
  pub cgroups_read : files (codes "/proc/cgroups") ≡ ok (cgroups_file cs)
  pub subsystems : All IsSubsystem cs
  pub cgroup_read :
      files (join (codes "/proc") (join proc_sub_dir (codes "cgroup"))) ≡ ok (proc_cgroup_file es)
  pub entries : All IsEntry es
  pub mountinfo_read : files (codes "/proc/self/mountinfo") ≡ ok (mountinfo rs)
  pub rows : All IsRow rs

module _ (files : FileSystem) (proc_sub_dir : Bytes) (cs : List CGroupSubsystem) (es : List Entry)
    (rs : List Row) (process : IsProcess files proc_sub_dir cs es rs) where
  subsystems_read : parse_read_cg_subsystems files ≡ ok cs
  unfolding parse_read_cg_subsystems
  subsystems_read =
      rw
        (
          process.cgroups_read,
          read,
          parse_read_cg_subsystems,
          parse_cg_subsystems-file cs process.subsystems,
        )
        refl

  controllers_read : resolve_proc_cg_controllers files proc_sub_dir ≡ ok (map entry_hierarchy es)
  unfolding resolve_proc_cg_controllers
  controllers_read =
      rw
        (
          process.cgroup_read,
          read,
          resolve_proc_cg_controllers,
          parse_proc_pid_cgroup-file es process.entries,
        )
        refl

  mounts_read : cgroup_mount_info files ≡ ok (row_mounts rs)
  unfolding cgroup_mount_info
  mounts_read =
      rw
        (
          process.mountinfo_read,
          read,
          cgroup_mount_info,
          get_cgroup_mounts-mountinfo rs process.rows,
        )
        refl

  -- On files as the kernel writes them, `subsystemPath` finds the subsystem by its name, the process's
  -- hierarchy by the subsystem's number and the directory by the mounts, or gives the error of the first
  -- that is missing.
  pub subsystem_path-resolved :
      (subsystem : Bytes)
      → subsystem_path files proc_sub_dir subsystem
        ≡ resolved subsystem cs (map entry_hierarchy es) (row_mounts rs)
  unfolding subsystem_path
  subsystem_path-resolved subsystem =
      rw (subsystems_read, subsystem_path, controllers_read, mounts_read) refl

-- A subsystem of the process whose cgroup is on a mount: the names of the mount point, and of the
-- directories from it to the cgroup. The row is the first with the subsystem's name, the controller the
-- first with the row's number. Mounts before it are outside of the cgroup namespace, of another
-- hierarchy, or without the path; the mount is inside, of the hierarchy, and its root is above the
-- cgroup.
pub record IsOnMount (subsystem : Bytes) (cs : List CGroupSubsystem) (es : List Entry)
    (rs : List Row) (m : Bytes) (ms ps : List Bytes) (mode : CgMode) : Type 0 where
  pub row : CGroupSubsystem
  pub row_found : IsFirstOf (HasSubsys subsystem) row cs
  pub controller : CgProcHierarchy
  pub controller_found : IsFirstOf (HasId row.hierarchy) controller (map entry_hierarchy es)
  pub before : List Mount
  pub mount : Mount
  pub after : List Mount
  pub mounts : row_mounts rs ≡ before ++ mount ∷ after
  pub root_names : List Bytes
  pub passed : All (IsPassedOver controller (root_names ++ ps)) before
  pub inside : ¬ IsOutside mount
  pub of_hierarchy : IsOfHierarchy controller mount
  pub mountpoint_clean : All IsElement (m ∷ ms)
  pub root_clean : All IsElement root_names
  pub path_clean : All IsElement ps
  pub mountpoint_is : mount.mountpoint ≡ rooted (m ∷ ms)
  pub root_is : mount.root ≡ rooted root_names
  pub path_is : controller.path ≡ rooted (root_names ++ ps)
  pub mode_is : mount_mode mount ≡ mode

resolved-found :
    (subsystem : Bytes) (cs : List CGroupSubsystem) (hs : List CgProcHierarchy) (ms : List Mount)
    (sub : CGroupSubsystem) (c : CgProcHierarchy) (p : CGroupPath)
    → find_subsystem subsystem cs ≡ some sub
    → find_controller sub.hierarchy hs ≡ some c
    → cg_path c ms ≡ ok p
    → resolved subsystem cs hs ms ≡ ok p
resolved-found subsystem cs hs ms sub c p e f g = rw (e, f, g) refl

-- On files as the kernel writes them, `subsystemPath` gives the directory of the process's cgroup below the
-- mount point. The hierarchy has the number in the first row of the subsystem's name and is the first with
-- it; the mount is the first that is inside of the cgroup namespace, of the hierarchy, and has the path of
-- the hierarchy, which is the mount's root or below it. The paths are clean, and the mount point is not the
-- root.
pub subsystem_path-IsOnMount :
    (files : FileSystem) (proc_sub_dir subsystem : Bytes) (cs : List CGroupSubsystem)
    (es : List Entry) (rs : List Row) (m : Bytes) (ms ps : List Bytes) (mode : CgMode)
    → IsProcess files proc_sub_dir cs es rs
    → IsOnMount subsystem cs es rs m ms ps mode
    → subsystem_path files proc_sub_dir subsystem
      ≡ ok (at (rooted (m ∷ ms)) mode (rooted (m ∷ ms)) (reverse ps))
subsystem_path-IsOnMount files proc_sub_dir subsystem cs es rs m ms ps mode process h =
    let c = h.controller in
    let names : All IsElement (h.root_names ++ ps) =
      All-append IsElement h.root_names ps h.root_clean h.path_clean in
    let passed = all-IsPassed c (h.root_names ++ ps) names h.path_is h.before h.passed in
    let usable = (is_mount_of_iff c h.mount).1 (h.inside, h.of_hierarchy) in
    let found : cg_path c (row_mounts rs)
        ≡ ok (at (rooted (m ∷ ms)) mode (rooted (m ∷ ms)) (reverse ps)) =
      ap (cg_path c) h.mounts
      ∙ cg_path-rooted c h.before h.mount h.after m ms h.root_names ps passed usable
          h.mountpoint_clean h.root_clean h.path_clean h.mountpoint_is h.root_is h.path_is
      ∙ ap ok (in_mount-at h.mount m ms ps h.mountpoint_is)
      ∙ ap (λ o. ok (at (rooted (m ∷ ms)) o (rooted (m ∷ ms)) (reverse ps)))
          (cgroup2_mode-mount_mode h.mount ∙ h.mode_is) in
    subsystem_path-resolved files proc_sub_dir cs es rs process subsystem
    ∙ resolved-found subsystem cs (map entry_hierarchy es) (row_mounts rs) h.row c _
        (find_subsystem-first subsystem h.row cs h.row_found)
        (find_controller-first h.row.hierarchy c (map entry_hierarchy es) h.controller_found) found

-- The same for the process itself.
pub self_subsystem_path-IsOnMount :
    (files : FileSystem) (subsystem : Bytes) (cs : List CGroupSubsystem) (es : List Entry)
    (rs : List Row) (m : Bytes) (ms ps : List Bytes) (mode : CgMode)
    → IsProcess files (codes "self") cs es rs
    → IsOnMount subsystem cs es rs m ms ps mode
    → self_subsystem_path files subsystem
      ≡ ok (at (rooted (m ∷ ms)) mode (rooted (m ∷ ms)) (reverse ps))
unfolding self_subsystem_path
self_subsystem_path-IsOnMount files subsystem =
    subsystem_path-IsOnMount files (codes "self") subsystem
