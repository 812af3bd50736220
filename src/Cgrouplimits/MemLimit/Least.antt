-- ===== src/Cgrouplimits/MemLimit/Least.antt =====
-- `GetCgroupMemoryLimit` gives the least limit of the process's memory cgroup and its ancestors.
use mathlib.Core.List.{foldl}
use procstats.Base.{
  suc, ◌≡◌, refl, List, [], ◌∷◌, map, some, arith, Bytes, codes, All, Result, ok, length,
}
use procstats.Base.Int.{ℤ}
use procstats.Cgresolver.CgPath.Walk.{
  IsName, directory, at, visited, names_length, for_ancestors-visited,
}
use procstats.Cgresolver.CgPath.{CgMode, CGroupPath}
use procstats.Cgresolver.ProcCgroup.Resolve.{self_subsystem_path}
use procstats.Cgrouplimits.MemLimit.Minimum.{start, rounds, IsLimitOf, found_limit-IsLimitOf}
use procstats.Cgrouplimits.MemLimit.{
  FileError, Limits, read_int_val_file, limit_round, limit_file, found_limit, memory_limit_from,
  get_cgroup_memory_limit,
}
use procstats.Go.Files.{FileSystem}
use procstats.Go.Strings.{trim_suffix}

-- The limits of the cgroup at `m` below and of its ancestors, from the cgroup outwards.
abbrev pub limits_read : FileSystem → Bytes → List CGroupPath → List (Result FileError ℤ)
limits_read files file ps = map (λ p. read_int_val_file files p.abs_path file) ps

rounds-map :
    (files : FileSystem) (file : Bytes) (ps : List CGroupPath) (l : Limits)
    → foldl (λ t p. limit_round (read_int_val_file files p.abs_path file) t) l ps
      ≡ rounds (limits_read files file ps) l
rounds-map files file [] l = refl
rounds-map files file (p ∷ ps) l =
    rounds-map files file ps (limit_round (read_int_val_file files p.abs_path file) l)

visited-IsLimitOf :
    (files : FileSystem) (file m : Bytes) (mode : CgMode) (mnt : Bytes) (cs : List Bytes)
    → IsLimitOf
        (limits_read files file (visited m mode mnt cs))
        (found_limit (rounds (limits_read files file (visited m mode mnt cs)) start))
visited-IsLimitOf files file m mode mnt [] = found_limit-IsLimitOf _ _
visited-IsLimitOf files file m mode mnt (c ∷ cs) = found_limit-IsLimitOf _ _

module _ (m : Bytes) (bare : trim_suffix (codes "/") m ≡ m) (mode : CgMode)
    (files : FileSystem) where
  memory_limit_from-visited :
      (file mnt : Bytes) (cs : List Bytes)
      → limit_file mode ≡ some file
      → trim_suffix (codes "/") mnt ≡ m
      → All IsName cs
      → memory_limit_from files (at m mode mnt cs)
        ≡ found_limit (rounds (limits_read files file (visited m mode mnt cs)) start)
  unfolding memory_limit_from
  memory_limit_from-visited file mnt cs f e h =
      rw
        (
          f,
          for_ancestors-visited m bare mode
              (λ p l. limit_round (read_int_val_file files p.abs_path file) l)
              (suc (length (directory m cs))) mnt cs start e h (omega (arith, names_length m cs)),
          rounds-map files file (visited m mode mnt cs) start,
        )
        refl

  -- Where the process's memory cgroup lies below a mount point, `GetCgroupMemoryLimit` returns the least
  -- positive limit among the cgroup and its ancestors, the largest int64 where none is less, or the first
  -- error where none can be read.
  pub get_cgroup_memory_limit-IsLimitOf :
      (file mnt : Bytes) (cs : List Bytes)
      → limit_file mode ≡ some file
      → trim_suffix (codes "/") mnt ≡ m
      → All IsName cs
      → self_subsystem_path files (codes "memory") ≡ ok (at m mode mnt cs)
      → IsLimitOf (limits_read files file (visited m mode mnt cs)) (get_cgroup_memory_limit files)
  unfolding get_cgroup_memory_limit
  get_cgroup_memory_limit-IsLimitOf file mnt cs f e h r =
      rw (r, get_cgroup_memory_limit, memory_limit_from-visited file mnt cs f e h)
        (visited-IsLimitOf files file m mode mnt cs)
