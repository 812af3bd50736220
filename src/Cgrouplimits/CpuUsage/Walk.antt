-- ===== src/Cgrouplimits/CpuUsage/Walk.antt =====
-- `GetCgroupCPUStats` on the process's cpu cgroup and the cgroups above it.
use mathlib.Core.List.{foldl}
use procstats.Base.{
  suc, ◌≡◌, refl, ap, ◌∙◌, true, List, [], ◌∷◌, map, arith, Bytes, codes, All, Result, ok, err,
  length,
}
use procstats.Cgresolver.CgPath.Walk.{
  IsName, directory, at, visited, names_length, for_ancestors-visited,
}
use procstats.Cgresolver.CgPath.{CgMode, CGroupPath, Stop}
use procstats.Cgresolver.ProcCgroup.Resolve.{self_subsystem_path}
use procstats.Cgrouplimits.CpuUsage.Least.{Read, IsStatsOf, cpu_rounds, found-IsStatsOf}
use procstats.Cgrouplimits.CpuUsage.{
  CpuStats, Error, stopped, get_cgroup_cpu_stats_single, CpuSearch, cpu_start, cpu_stats_round,
  found_cpu_stats, cpu_stats_from, get_cgroup_cpu_stats,
}
use procstats.Cgrouplimits.Search.Least.{IsStrict}
use procstats.Go.Files.{FileSystem}
use procstats.Go.Float.{Float64}
use procstats.Go.Strings.{trim_suffix}

module _ (fl : Float64) (strict : IsStrict fl.lt) (inf_eq : fl.eq fl.inf fl.inf ≡ true)
    (files : FileSystem) where
  -- The statistics of the cgroups on a way.
  abbrev pub stats_read : List CGroupPath → List (Read fl strict inf_eq)
  stats_read ps = map (λ p. get_cgroup_cpu_stats_single fl files p) ps

  abbrev round : CGroupPath → CpuSearch fl → CpuSearch fl
  round p s = cpu_stats_round fl (get_cgroup_cpu_stats_single fl files p) s

  rounds-map :
      (ps : List CGroupPath) (s : CpuSearch fl)
      → foldl (λ t p. round p t) s ps ≡ cpu_rounds fl strict inf_eq (stats_read ps) s
  rounds-map [] s = refl
  rounds-map (p ∷ ps) s = rounds-map ps (round p s)

  module _ (m : Bytes) (bare : trim_suffix (codes "/") m ≡ m) (mode : CgMode) where
    visited-IsStatsOf :
        (mnt : Bytes) (cs : List Bytes)
        → IsStatsOf fl strict inf_eq (stats_read (visited m mode mnt cs)) (
            found_cpu_stats fl
              (cpu_rounds fl strict inf_eq (stats_read (visited m mode mnt cs)) (cpu_start fl)))
    visited-IsStatsOf mnt [] = found-IsStatsOf fl strict inf_eq _ _
    visited-IsStatsOf mnt (c ∷ cs) = found-IsStatsOf fl strict inf_eq _ _

    cpu_stats_from-visited :
        (mnt : Bytes) (cs : List Bytes)
        → trim_suffix (codes "/") mnt ≡ m
        → All IsName cs
        → cpu_stats_from fl files (at m mode mnt cs)
          ≡ found_cpu_stats fl
              (cpu_rounds fl strict inf_eq (stats_read (visited m mode mnt cs)) (cpu_start fl))
    unfolding cpu_stats_from
    cpu_stats_from-visited mnt cs e h =
        let body : Result Stop (CpuSearch fl) → Result Error (CpuStats fl.Carrier) =
          λ o. elim o [ err e ↦ err (stopped e) | ok s ↦ found_cpu_stats fl s ] in
        ap body (
          for_ancestors-visited m bare mode round (suc (length (directory m cs))) mnt cs
            (cpu_start fl) e h (omega (arith, names_length m cs)))
        ∙ ap (found_cpu_stats fl) (rounds-map (visited m mode mnt cs) (cpu_start fl))

    -- Where the process's cpu cgroup lies below a mount point, `GetCgroupCPUStats` returns the statistics of
    -- a cgroup on the way out whose limit no other limit on the way is less than, those of the first cgroup
    -- that can be read where no limit is below infinity, or the first error where none can be read. The
    -- order of float64 is irreflexive and transitive, infinity equals itself, and 0 and -1 are no limits.
    pub get_cgroup_cpu_stats-IsStatsOf :
        (mnt : Bytes) (cs : List Bytes)
        → trim_suffix (codes "/") mnt ≡ m
        → All IsName cs
        → self_subsystem_path files (codes "cpu") ≡ ok (at m mode mnt cs)
        → IsStatsOf fl strict inf_eq
            (stats_read (visited m mode mnt cs))
            (get_cgroup_cpu_stats fl files)
    unfolding get_cgroup_cpu_stats
    get_cgroup_cpu_stats-IsStatsOf mnt cs e h r =
        rw (r, get_cgroup_cpu_stats, cpu_stats_from-visited mnt cs e h) (visited-IsStatsOf mnt cs)
