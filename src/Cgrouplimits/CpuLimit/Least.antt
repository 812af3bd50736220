-- ===== src/Cgrouplimits/CpuLimit/Least.antt =====
-- `GetCgroupCPULimit` gives the least limit of the process's cpu cgroup and its ancestors.
use mathlib.Core.List.{foldl}
use procstats.Base.{
  suc, ◌≡◌, refl, List, [], ◌∷◌, map, arith, Bytes, codes, equal, All, Result, ok, length,
}
use procstats.Cgresolver.CgPath.Walk.{
  IsName, directory, at, visited, names_length, for_ancestors-visited,
}
use procstats.Cgresolver.CgPath.{CgMode, CGroupPath}
use procstats.Cgresolver.ProcCgroup.Resolve.{self_subsystem_path}
use procstats.Cgrouplimits.CpuLimit.Minimum.{counts, IsLimitOf, cpu_loop}
use procstats.Cgrouplimits.CpuLimit.{
  SingleError, CpuLimits, leaf_failed, get_cgroup_cpu_limit_single, cpu_limit_round,
  found_cpu_limit, cpu_limit_from, get_cgroup_cpu_limit,
}
use procstats.Cgrouplimits.Search.Least.{IsStrict}
use procstats.Cgrouplimits.Search.Limits.{after, found-IsLeastOf}
use procstats.Go.Files.{FileSystem}
use procstats.Go.Float.{Float64}
use procstats.Go.Strings.{trim_suffix}

module _ (fl : Float64) (files : FileSystem) where
  open fl use {Carrier, lt, inf}

  -- The limits of the cgroups on a way.
  abbrev pub cpu_limits : List CGroupPath → List (Result SingleError Carrier)
  cpu_limits ps = map (λ p. get_cgroup_cpu_limit_single fl files p) ps

  abbrev start : CpuLimits Carrier
  start = (cpu_loop fl).start

  rounds-map :
      (strict : IsStrict lt) (ps : List CGroupPath) (l : CpuLimits Carrier)
      → foldl (λ t p. cpu_limit_round fl (get_cgroup_cpu_limit_single fl files p) t) l ps
        ≡ after (counts fl) (λ v. v) lt leaf_failed inf strict (cpu_loop fl) (cpu_limits ps) l
  rounds-map strict [] l = refl
  rounds-map strict (p ∷ ps) l =
      rounds-map strict ps (cpu_limit_round fl (get_cgroup_cpu_limit_single fl files p) l)

  module _ (strict : IsStrict lt) (m : Bytes) (bare : trim_suffix (codes "/") m ≡ m)
      (mode : CgMode) where
    -- The loop's variables behind the way.
    abbrev found_on : List CGroupPath → CpuLimits Carrier
    found_on ps =
        after (counts fl) (λ v. v) lt leaf_failed inf strict (cpu_loop fl) (cpu_limits ps) start

    visited-IsLimitOf :
        (mnt : Bytes) (cs : List Bytes)
        → IsLimitOf fl
            (cpu_limits (visited m mode mnt cs))
            (found_cpu_limit fl (found_on (visited m mode mnt cs)))
    visited-IsLimitOf mnt [] =
        found-IsLeastOf (counts fl) (λ v. v) lt leaf_failed inf strict (cpu_loop fl) _ _
    visited-IsLimitOf mnt (c ∷ cs) =
        found-IsLeastOf (counts fl) (λ v. v) lt leaf_failed inf strict (cpu_loop fl) _ _

    cpu_limit_from-visited :
        (mnt : Bytes) (cs : List Bytes)
        → trim_suffix (codes "/") mnt ≡ m
        → All IsName cs
        → cpu_limit_from fl files (at m mode mnt cs)
          ≡ found_cpu_limit fl (found_on (visited m mode mnt cs))
    unfolding cpu_limit_from equal
    cpu_limit_from-visited mnt cs e h =
        rw
          (
            for_ancestors-visited m bare mode
                (λ p l. cpu_limit_round fl (get_cgroup_cpu_limit_single fl files p) l)
                (suc (length (directory m cs))) mnt cs start e h (omega (arith, names_length m cs)),
            rounds-map strict (visited m mode mnt cs) start,
          )
          refl

    -- Where the process's cpu cgroup lies below a mount point, `GetCgroupCPULimit` returns the least limit
    -- of the cgroup and its ancestors, infinite where none is less, or the first error where none can be
    -- read. The order of float64 is irreflexive and transitive; 0 and -1 are no limits.
    pub get_cgroup_cpu_limit-IsLimitOf :
        (mnt : Bytes) (cs : List Bytes)
        → trim_suffix (codes "/") mnt ≡ m
        → All IsName cs
        → self_subsystem_path files (codes "cpu") ≡ ok (at m mode mnt cs)
        → IsLimitOf fl (cpu_limits (visited m mode mnt cs)) (get_cgroup_cpu_limit fl files)
    unfolding get_cgroup_cpu_limit
    get_cgroup_cpu_limit-IsLimitOf mnt cs e h r =
        rw (r, get_cgroup_cpu_limit, cpu_limit_from-visited mnt cs e h) (visited-IsLimitOf mnt cs)
