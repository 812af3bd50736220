-- ===== src/Cgrouplimits/MemLimit/Kernel.antt =====
-- `GetCgroupMemoryLimit` from files that the kernel writes to the limit.
use mathlib.Core.Path.{ap₂, subst}
use procstats.Base.{◌≡◌, refl, List, [], ◌∷◌, reverse, some, map, Bytes, codes}
use procstats.Cgresolver.CgPath.Walk.{visited}
use procstats.Cgresolver.CgPath.{CgMode, CGroupPath}
use procstats.Cgresolver.Mountinfo.Rows.{Row}
use procstats.Cgresolver.ProcCgroup.Ancestors.{trim_suffix-rooted, reverse-IsName}
use procstats.Cgresolver.ProcCgroup.Composed.{IsProcess, IsOnMount, self_subsystem_path-IsOnMount}
use procstats.Cgresolver.ProcCgroup.Lines.{Entry}
use procstats.Cgresolver.ProcCgroup.Table.{CGroupSubsystem}
use procstats.Cgrouplimits.MemLimit.IntFile.{
  IntFile, content, IsIntFile, value, read_int_val_file-IntFile,
}
use procstats.Cgrouplimits.MemLimit.Least.{limits_read, get_cgroup_memory_limit-IsLimitOf}
use procstats.Cgrouplimits.MemLimit.Minimum.{IsLimitOf}
use procstats.Cgrouplimits.MemLimit.{limit_file, get_cgroup_memory_limit}
use procstats.Go.Files.{FileSystem, read_in}
use procstats.Go.Paths.Clean.{rooted}

module _ (files : FileSystem) (file : Bytes) where
  abbrev pub HasInt : CGroupPath → IntFile → Type 0
  HasInt p x = (read_in files p.abs_path file ≡ content x) × IsIntFile x

  -- The file of each directory is the one at its place in the list.
  abbrev pub HaveInt : List CGroupPath → List IntFile → Type 0
  HaveInt [] [] = Unit
  HaveInt [] (x ∷ xs) = ⊥
  HaveInt (p ∷ ps) [] = ⊥
  HaveInt (p ∷ ps) (x ∷ xs) = HasInt p x × HaveInt ps xs

  limits_read-IntFile :
      (ps : List CGroupPath) (xs : List IntFile)
      → HaveInt ps xs
      → limits_read files file ps ≡ map value xs
  limits_read-IntFile [] [] h = refl
  limits_read-IntFile [] (x ∷ xs) h = absurd h
  limits_read-IntFile (p ∷ ps) [] h = absurd h
  limits_read-IntFile (p ∷ ps) (x ∷ xs) ((r, h), hs) =
      ap₂ (λ y ys. y ∷ ys) (read_int_val_file-IntFile files p.abs_path file x r h)
        (limits_read-IntFile ps xs hs)

-- Where /proc/cgroups, /proc/self/cgroup and /proc/self/mountinfo are as the kernel writes them, the
-- process's memory cgroup is on a mount, and each limit file in the cgroup's directory and those above it
-- up to the mount point cannot be read or has a number that fits an int64 or the word for no limit,
-- `GetCgroupMemoryLimit` gives the least positive limit of these files, the largest int64 where none is
-- less, or the first error where none can be read.
pub get_cgroup_memory_limit-IsOnMount :
    (files : FileSystem) (cs : List CGroupSubsystem) (es : List Entry) (rs : List Row) (m : Bytes)
    (ms ps : List Bytes) (mode : CgMode) (file : Bytes) (xs : List IntFile)
    → IsProcess files (codes "self") cs es rs
    → IsOnMount (codes "memory") cs es rs m ms ps mode
    → limit_file mode ≡ some file
    → HaveInt files file (visited (rooted (m ∷ ms)) mode (rooted (m ∷ ms)) (reverse ps)) xs
    → IsLimitOf (map value xs) (get_cgroup_memory_limit files)
get_cgroup_memory_limit-IsOnMount files cs es rs m ms ps mode file xs process h f have =
    let bare = trim_suffix-rooted m ms h.mountpoint_clean in
    subst (λ l. IsLimitOf l (get_cgroup_memory_limit files))
      (limits_read-IntFile files file _ xs have)
      (get_cgroup_memory_limit-IsLimitOf (rooted (m ∷ ms)) bare mode files file (rooted (m ∷ ms))
        (reverse ps) f bare (reverse-IsName ps h.path_clean)
        (self_subsystem_path-IsOnMount files (codes "memory") cs es rs m ms ps mode process h))
