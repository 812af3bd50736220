-- ===== src/Cgrouplimits/CpuLimit/Kernel.antt =====
-- `GetCgroupCPULimit` from files that the kernel writes to the limit.
use mathlib.Core.Path.{ap₂, subst}
use procstats.Base.Int.{ℤ, pos, negsuc}
use procstats.Base.{
  ℕ, ◌^◌, ◌<◌, ◌≡◌, refl, arith, some, none, List, [], ◌∷◌, reverse, Option, map, Bytes, codes,
  Result, ok, err,
}
use procstats.Cgresolver.CgPath.Walk.{visited}
use procstats.Cgresolver.CgPath.{CgMode, v1, v2, CGroupPath}
use procstats.Cgresolver.Mountinfo.Rows.{Row}
use procstats.Cgresolver.ProcCgroup.Ancestors.{trim_suffix-rooted, reverse-IsName}
use procstats.Cgresolver.ProcCgroup.Composed.{IsProcess, IsOnMount, self_subsystem_path-IsOnMount}
use procstats.Cgresolver.ProcCgroup.Lines.{Entry}
use procstats.Cgresolver.ProcCgroup.Table.{CGroupSubsystem}
use procstats.Cgrouplimits.CpuLimit.Least.{cpu_limits, get_cgroup_cpu_limit-IsLimitOf}
use procstats.Cgrouplimits.CpuLimit.Max.{
  cpu_max, limit_of, IsQuota, get_cgroup_cpu_limit_single-cpu_max,
}
use procstats.Cgrouplimits.CpuLimit.Minimum.{IsLimitOf}
use procstats.Cgrouplimits.CpuLimit.{
  SingleError, quota_failed, period_failed, max_unreadable, quotient, v1_limit, v2_limit,
  get_cgroup_cpu_limit_single, get_cgroup_cpu_limit,
}
use procstats.Cgrouplimits.MemLimit.IntFile.{
  IntFile, missing, number, content, IsIntFile, value, read_int_val_file-IntFile,
}
use procstats.Cgrouplimits.MemLimit.{unreadable, read_int_val_file}
use procstats.Cgrouplimits.Search.Least.{IsStrict}
use procstats.Go.Files.{ReadError, FileSystem, read_in}
use procstats.Go.Float.{Float64}
use procstats.Go.Paths.Clean.{rooted}
use procstats.Go.Paths.{join}

-- What a cgroup's directory has of the CPU limit: in v2 cpu.max, which cannot be read in the root of all
-- cgroups, in v1 the quota and the period in a file each. The quota may be none.
pub data CpuFiles : Type 0 where
  max_missing : ReadError → CpuFiles
  max_file cfs_files : Option ℕ → ℕ → CpuFiles
  quota_missing : ReadError → CpuFiles
  period_missing : Option ℕ → ReadError → CpuFiles

-- The v1 file of a quota has -1 where there is none.
abbrev pub cfs_quota : Option ℕ → ℤ
cfs_quota none = negsuc 0
cfs_quota (some q) = pos q

module _ (fl : Float64) where
  open fl use {Carrier, lt}

  -- The limit that it sets.
  abbrev pub limit_set : CpuFiles → Result SingleError Carrier
  limit_set (max_missing e) = err (max_unreadable e)
  limit_set (max_file q p) = ok (limit_of fl q p)
  limit_set (cfs_files q p) = ok (limit_of fl q p)
  limit_set (quota_missing e) = err (quota_failed (unreadable e))
  limit_set (period_missing q e) = err (period_failed (unreadable e))

  quotient-cfs_quota : (q : Option ℕ) (p : ℕ) → quotient fl (cfs_quota q) (pos p) ≡ limit_of fl q p
  quotient-cfs_quota none p = ground arith
  quotient-cfs_quota (some q) p = ground arith

  cfs_quota-IsIntFile : (q : Option ℕ) → IsQuota fl q → IsIntFile (number (cfs_quota q))
  cfs_quota-IsIntFile none h = omega arith
  cfs_quota-IsIntFile (some q) h = omega arith

  module _ (files : FileSystem) where
    abbrev HasMax : CGroupPath → Result ReadError Bytes → Type 0
    HasMax p r = (p.mode ≡ v2) × (files (join p.abs_path (codes "cpu.max")) ≡ r)

    abbrev HasQuota : CGroupPath → IntFile → Type 0
    HasQuota p x = (p.mode ≡ v1) × (read_in files p.abs_path (codes "cpu.cfs_quota_us") ≡ content x)

    abbrev HasPeriod : CGroupPath → IntFile → Type 0
    HasPeriod p x = read_in files p.abs_path (codes "cpu.cfs_period_us") ≡ content x

    -- The numbers fit an int64.
    abbrev pub HasCpuFiles : CGroupPath → CpuFiles → Type 0
    HasCpuFiles p (max_missing e) = HasMax p (err e)
    HasCpuFiles p (max_file q n) = HasMax p (ok (cpu_max q n)) × IsQuota fl q × (n < 2 ^ 63)
    HasCpuFiles p (cfs_files q n) =
        HasQuota p (number (cfs_quota q))
        × HasPeriod p (number (pos n))
        × IsQuota fl q
        × (n < 2 ^ 63)
    HasCpuFiles p (quota_missing e) = HasQuota p (missing e)
    HasCpuFiles p (period_missing q e) =
        HasQuota p (number (cfs_quota q)) × HasPeriod p (missing e) × IsQuota fl q

    -- Each directory has the files at its place in the list.
    abbrev pub HaveCpuFiles : List CGroupPath → List CpuFiles → Type 0
    HaveCpuFiles [] [] = Unit
    HaveCpuFiles [] (x ∷ xs) = ⊥
    HaveCpuFiles (p ∷ ps) [] = ⊥
    HaveCpuFiles (p ∷ ps) (x ∷ xs) = HasCpuFiles p x × HaveCpuFiles ps xs

    read_quota :
        (p : CGroupPath) (x : IntFile)
        → HasQuota p x
        → IsIntFile x
        → read_int_val_file files p.abs_path (codes "cpu.cfs_quota_us") ≡ value x
    read_quota p x (m, r) h = read_int_val_file-IntFile files p.abs_path _ x r h

    read_period :
        (p : CGroupPath) (x : IntFile)
        → HasPeriod p x
        → IsIntFile x
        → read_int_val_file files p.abs_path (codes "cpu.cfs_period_us") ≡ value x
    read_period p x r h = read_int_val_file-IntFile files p.abs_path _ x r h

    pub limit_single-CpuFiles :
        (p : CGroupPath) (x : CpuFiles)
        → HasCpuFiles p x
        → get_cgroup_cpu_limit_single fl files p ≡ limit_set x
    unfolding get_cgroup_cpu_limit_single v1_limit v2_limit
    limit_single-CpuFiles p (max_missing e) (m, r) =
        rw (m, get_cgroup_cpu_limit_single, r, v2_limit) refl
    limit_single-CpuFiles p (max_file q n) ((m, r), hq, hn) =
        get_cgroup_cpu_limit_single-cpu_max fl files p q n m r hq hn
    limit_single-CpuFiles p (cfs_files q n) (quota, period, hq, hn) =
        rw
          (
            quota.0,
            get_cgroup_cpu_limit_single,
            read_quota p (number (cfs_quota q)) quota (cfs_quota-IsIntFile q hq),
            v1_limit,
            read_period p (number (pos n)) period (omega arith),
            quotient-cfs_quota q n,
          )
          refl
    limit_single-CpuFiles p (quota_missing e) quota =
        rw (quota.0, get_cgroup_cpu_limit_single, read_quota p (missing e) quota tt, v1_limit) refl
    limit_single-CpuFiles p (period_missing q e) (quota, period, hq) =
        rw
          (
            quota.0,
            get_cgroup_cpu_limit_single,
            read_quota p (number (cfs_quota q)) quota (cfs_quota-IsIntFile q hq),
            v1_limit,
            read_period p (missing e) period tt,
          )
          refl

    cpu_limits-CpuFiles :
        (ps : List CGroupPath) (xs : List CpuFiles)
        → HaveCpuFiles ps xs
        → cpu_limits fl files ps ≡ map limit_set xs
    cpu_limits-CpuFiles [] [] h = refl
    cpu_limits-CpuFiles [] (x ∷ xs) h = absurd h
    cpu_limits-CpuFiles (p ∷ ps) [] h = absurd h
    cpu_limits-CpuFiles (p ∷ ps) (x ∷ xs) (h, hs) =
        ap₂ (λ r rs. r ∷ rs) (limit_single-CpuFiles p x h) (cpu_limits-CpuFiles ps xs hs)

    -- Where the files of /proc are as the kernel writes them, the process's cpu cgroup is on a mount, and
    -- the files of the limit in the cgroup's directory and in those above it up to the mount point are as
    -- the kernel writes them, cpu.max for v2, the quota and the period for v1, or cannot be read,
    -- `GetCgroupCPULimit` gives the least quotient of a quota and its period, infinite where there is none,
    -- or the first error where none can be read. The order of float64 is irreflexive and transitive.
    pub get_cgroup_cpu_limit-IsOnMount :
        IsStrict lt
        → (cs : List CGroupSubsystem) (es : List Entry) (rs : List Row) (m : Bytes)
          (ms ps : List Bytes) (mode : CgMode) (xs : List CpuFiles)
        → IsProcess files (codes "self") cs es rs
        → IsOnMount (codes "cpu") cs es rs m ms ps mode
        → HaveCpuFiles (visited (rooted (m ∷ ms)) mode (rooted (m ∷ ms)) (reverse ps)) xs
        → IsLimitOf fl (map limit_set xs) (get_cgroup_cpu_limit fl files)
    get_cgroup_cpu_limit-IsOnMount strict cs es rs m ms ps mode xs process h have =
        let way = visited (rooted (m ∷ ms)) mode (rooted (m ∷ ms)) (reverse ps) in
        let bare = trim_suffix-rooted m ms h.mountpoint_clean in
        subst (λ l. IsLimitOf fl l (get_cgroup_cpu_limit fl files))
          (cpu_limits-CpuFiles way xs have)
          (get_cgroup_cpu_limit-IsLimitOf fl files strict (rooted (m ∷ ms)) bare mode
            (rooted (m ∷ ms)) (reverse ps) bare (reverse-IsName ps h.path_clean)
            (self_subsystem_path-IsOnMount files (codes "cpu") cs es rs m ms ps mode process h))
