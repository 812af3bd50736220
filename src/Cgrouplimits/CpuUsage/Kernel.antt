-- ===== src/Cgrouplimits/CpuUsage/Kernel.antt =====
-- `GetCgroupCPUStats` of a v2 cgroup from files that the kernel writes to the statistics.
use mathlib.Core.Path.{ap₂, subst}
use procstats.Base.{
  ℕ, true, ◌≡◌, refl, List, [], ◌∷◌, Option, none, some, reverse, map, Bytes, codes, All, Result,
  ok, err,
}
use procstats.Base.Int.{pos, negsuc}
use procstats.Cgresolver.CgPath.Walk.{visited}
use procstats.Cgresolver.CgPath.{CgMode, v2, CGroupPath}
use procstats.Cgresolver.Mountinfo.Rows.{Row}
use procstats.Cgresolver.ProcCgroup.Ancestors.{trim_suffix-rooted, reverse-IsName}
use procstats.Cgresolver.ProcCgroup.Composed.{IsProcess, IsOnMount, self_subsystem_path-IsOnMount}
use procstats.Cgresolver.ProcCgroup.Lines.{Entry}
use procstats.Cgresolver.ProcCgroup.Table.{CGroupSubsystem}
use procstats.Cgrouplimits.CpuLimit.Kernel.{
  CpuFiles, max_missing, max_file, limit_set, HasCpuFiles, limit_single-CpuFiles,
}
use procstats.Cgrouplimits.CpuLimit.Max.{limit_of}
use procstats.Cgrouplimits.CpuLimit.{max_unreadable}
use procstats.Cgrouplimits.CpuUsage.Least.{Read, IsStatsOf}
use procstats.Cgrouplimits.CpuUsage.Rendered.{from_micros, cgroup_v2_cpu_usage-render}
use procstats.Cgrouplimits.CpuUsage.Walk.{stats_read, get_cgroup_cpu_stats-IsStatsOf}
use procstats.Cgrouplimits.CpuUsage.{
  CpuStats, stat_unreadable, limit_failed, usage_failed, limit_or_none, cgroup_v2_cpu_usage,
  get_cgroup_cpu_stats_single, get_cgroup_cpu_stats,
}
use procstats.Cgrouplimits.Search.Least.{IsStrict}
use procstats.Go.Files.{ReadError, not_exist, other_error, FileSystem, read_in}
use procstats.Go.Float.{Float64}
use procstats.Go.Paths.Clean.{rooted}
use procstats.Pparser.Dict.Render.{Item, render, IsItem}

-- The quota, if there is one, and the period of a cpu.max, if there is this file.
abbrev pub Max : Type 0
Max = Option (Option ℕ × ℕ)

-- What a v2 cgroup's directory has of the CPU: cpu.max and the lines of cpu.stat. Where cpu.max is there
-- but cannot be read, the rest does not matter.
pub data StatFiles : Type 0 where
  max_unread : StatFiles
  stat_missing : Max → ReadError → StatFiles
  all_files : Max → List Item → StatFiles

abbrev pub max_files : Max → CpuFiles
max_files none = max_missing not_exist
max_files (some (q, p)) = max_file q p

module _ (fl : Float64) (strict : IsStrict fl.lt) (inf_eq : fl.eq fl.inf fl.inf ≡ true) where
  open fl use {Carrier, of_int}

  -- The limit, which is -1 where there is no cpu.max.
  abbrev pub limit_kept : Max → Carrier
  limit_kept none = of_int (negsuc 0)
  limit_kept (some (q, p)) = limit_of fl q p

  abbrev pub times_of : List Item → CpuStats Carrier
  times_of is = record {
    limit = of_int (pos 0);
    usage = record {
      utime = from_micros is (codes "user_usec");
      stime = from_micros is (codes "system_usec");
    };
    throttled_time = from_micros is (codes "throttled_usec");
  }

  -- The statistics that they give.
  abbrev pub stats_of : StatFiles → Read fl strict inf_eq
  stats_of max_unread = err (limit_failed (max_unreadable other_error))
  stats_of (stat_missing l e) = err (usage_failed (stat_unreadable e))
  stats_of (all_files l is) = ok (times_of is, limit_kept l)

  module _ (files : FileSystem) where
    abbrev HasStat : CGroupPath → Result ReadError Bytes → Type 0
    HasStat p r = (p.mode ≡ v2) × (read_in files p.abs_path (codes "cpu.stat") ≡ r)

    -- The lines are such as the kernel writes, and the numbers fit an int64.
    abbrev pub HasStatFiles : CGroupPath → StatFiles → Type 0
    HasStatFiles p max_unread = HasCpuFiles fl files p (max_missing other_error)
    HasStatFiles p (stat_missing l e) = HasCpuFiles fl files p (max_files l) × HasStat p (err e)
    HasStatFiles p (all_files l is) =
        HasCpuFiles fl files p (max_files l)
        × HasStat p (ok (render b' ' is))
        × All (IsItem b' ') is

    -- Each directory has the files at its place in the list.
    abbrev pub HaveStatFiles : List CGroupPath → List StatFiles → Type 0
    HaveStatFiles [] [] = Unit
    HaveStatFiles [] (x ∷ xs) = ⊥
    HaveStatFiles (p ∷ ps) [] = ⊥
    HaveStatFiles (p ∷ ps) (x ∷ xs) = HasStatFiles p x × HaveStatFiles ps xs

    limit_or_none-max_files :
        (l : Max) → limit_or_none fl (limit_set fl (max_files l)) ≡ ok (limit_kept l)
    unfolding limit_or_none
    limit_or_none-max_files none = refl
    limit_or_none-max_files (some (q, p)) = refl

    stats_single-StatFiles :
        (p : CGroupPath) (x : StatFiles)
        → HasStatFiles p x
        → get_cgroup_cpu_stats_single fl files p ≡ stats_of x
    unfolding get_cgroup_cpu_stats_single cgroup_v2_cpu_usage
    stats_single-StatFiles p max_unread h =
        rw
          (
            limit_single-CpuFiles fl files p (max_missing other_error) h,
            get_cgroup_cpu_stats_single,
          )
          refl
    stats_single-StatFiles p (stat_missing l e) (h, (m, r)) =
        rw
          (
            limit_single-CpuFiles fl files p (max_files l) h,
            get_cgroup_cpu_stats_single,
            limit_or_none-max_files l,
            m,
            r,
            cgroup_v2_cpu_usage,
          )
          refl
    stats_single-StatFiles p (all_files l is) (h, (m, r), i) =
        rw
          (
            limit_single-CpuFiles fl files p (max_files l) h,
            get_cgroup_cpu_stats_single,
            limit_or_none-max_files l,
            m,
            cgroup_v2_cpu_usage-render fl files p.abs_path is r i,
          )
          refl

    stats_read-StatFiles :
        (ps : List CGroupPath) (xs : List StatFiles)
        → HaveStatFiles ps xs
        → stats_read fl strict inf_eq files ps ≡ map stats_of xs
    stats_read-StatFiles [] [] h = refl
    stats_read-StatFiles [] (x ∷ xs) h = absurd h
    stats_read-StatFiles (p ∷ ps) [] h = absurd h
    stats_read-StatFiles (p ∷ ps) (x ∷ xs) (h, hs) =
        ap₂ (λ y ys. y ∷ ys) (stats_single-StatFiles p x h) (stats_read-StatFiles ps xs hs)

    -- Where the files of /proc are as the kernel writes them, the process's cpu cgroup is on a mount of
    -- cgroup v2, and so are cpu.max and cpu.stat in the cgroup's directory and in those above it up to the
    -- mount point, or one cannot be read, `GetCgroupCPUStats` gives the times of cpu.stat from microseconds
    -- to nanoseconds, of a cgroup on the way whose limit no other is less than, of the first that can be
    -- read where no limit is below infinity, or the first error where none can be read. The order of
    -- float64 is irreflexive and transitive, and infinity equals itself.
    pub get_cgroup_cpu_stats-IsOnMount :
        (cs : List CGroupSubsystem) (es : List Entry) (rs : List Row) (m : Bytes)
        (ms ps : List Bytes) (mode : CgMode) (xs : List StatFiles)
        → IsProcess files (codes "self") cs es rs
        → IsOnMount (codes "cpu") cs es rs m ms ps mode
        → HaveStatFiles (visited (rooted (m ∷ ms)) mode (rooted (m ∷ ms)) (reverse ps)) xs
        → IsStatsOf fl strict inf_eq (map stats_of xs) (get_cgroup_cpu_stats fl files)
    get_cgroup_cpu_stats-IsOnMount cs es rs m ms ps mode xs process h have =
        let bare = trim_suffix-rooted m ms h.mountpoint_clean in
        subst (λ l. IsStatsOf fl strict inf_eq l (get_cgroup_cpu_stats fl files))
          (stats_read-StatFiles _ xs have)
          (get_cgroup_cpu_stats-IsStatsOf fl strict inf_eq files (rooted (m ∷ ms)) bare mode
            (rooted (m ∷ ms)) (reverse ps) bare (reverse-IsName ps h.path_clean)
            (self_subsystem_path-IsOnMount files (codes "cpu") cs es rs m ms ps mode process h))
