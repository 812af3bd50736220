-- ===== src/Cgrouplimits/CpuLimit.antt =====
-- `getCGroupCPULimitSingle` and `GetCgroupCPULimit` of cgrouplimits/cgroup_linux.go.
pub mod Max
pub mod Minimum
pub mod Least
pub mod Kernel
use procstats.Base.{
  ℕ, suc, Bool, true, false, not, ◌&&◌, ◌||◌, List, [], ◌∷◌, Option, none, some, if◌then◌else◌,
  Bytes, codes, equal, length, Result, ok, err, ◌>>=◌, require,
}
use procstats.Base.Int.{ℤ, pos, negsuc, ltb_ℤ}
use procstats.Cgresolver.CgPath.{CgMode, unknown, v1, v2, CGroupPath, Stop, for_ancestors}
use procstats.Cgresolver.ProcCgroup.Resolve
use procstats.Cgresolver.ProcCgroup.Resolve.{self_subsystem_path}
use procstats.Cgrouplimits.MemLimit.{FileError, read_int_val_file, keep_first}
use procstats.Go.Files.{ReadError, FileSystem}
use procstats.Go.Float.{Float64}
use procstats.Go.Paths.{join}
use procstats.Go.Spaces.{fields}
use procstats.Go.Strconv.{parse_int}

-- Where `getCGroupCPULimitSingle` gives up. The errors of the v1 files are not wrapped.
pub data SingleError : Type 0 where
  quota_failed period_failed : FileError → SingleError
  max_unreadable : ReadError → SingleError
  wrong_components bad_limit bad_period unknown_type : SingleError

-- A number that is zero or less.
abbrev pub not_positive : ℤ → Bool
not_positive z = not (ltb_ℤ (pos 0) z)

abbrev pub two_parts : List Bytes → Option (Bytes × Bytes)
two_parts (a ∷ b ∷ []) = some (a, b)
two_parts _ = none

-- The variables of the loop over the cgroup and its ancestors.
pub record CpuLimits (A : Type 0) : Type 0 where
  pub min_limit : A
  pub all_failed : Bool
  pub leaf_cg_read_err : Option SingleError

-- Where `GetCgroupCPULimit` gives up. `nil_error` would be a nil error beside the result -1.
pub data Error : Type 0 where
  no_cgroup : Resolve.Error → Error
  nil_error : Error
  leaf_failed : SingleError → Error
  stopped : Stop → Error

module _ (fl : Float64) where
  open fl use {Carrier, of_int, div, lt, eq, inf}

  -- `float64(quota) / float64(period)`, or 0 for no limit.
  abbrev pub quotient : ℤ → ℤ → Carrier
  quotient quota period =
      if not_positive period || not_positive quota
      then of_int (pos 0)
      else div (of_int quota) (of_int period)

  -- The v1 branch.
  unfoldable pub v1_limit : FileSystem → CGroupPath → Result SingleError Carrier
  unfolding read_int_val_file
  v1_limit files cpu_path =
      elim (read_int_val_file files cpu_path.abs_path (codes "cpu.cfs_quota_us")) [
        | err e ↦ err (quota_failed e)
        | ok quota ↦ elim (read_int_val_file files cpu_path.abs_path (codes "cpu.cfs_period_us")) [
          | err e ↦ err (period_failed e)
          | ok period ↦ ok (quotient quota period)
        ]
      ]

  -- The numbers of a cpu.max that is not `max`.
  unfoldable pub max_numbers : Option ℤ → Option ℤ → Result SingleError Carrier
  max_numbers none p = err bad_limit
  max_numbers (some l) none = err bad_period
  max_numbers (some l) (some p) = ok (quotient l p)

  unfoldable pub max_limit : Option (Bytes × Bytes) → Result SingleError Carrier
  unfolding max_numbers
  max_limit none = err wrong_components
  max_limit (some (l, p)) =
      if equal l (codes "max")
      then ok (of_int (pos 0))
      else max_numbers (parse_int 64 l) (parse_int 64 p)

  -- The v2 branch.
  unfoldable pub v2_limit : FileSystem → CGroupPath → Result SingleError Carrier
  unfolding max_limit
  v2_limit files cpu_path = elim (files (join cpu_path.abs_path (codes "cpu.max"))) [
    | err e ↦ err (max_unreadable e)
    | ok quota_str ↦ max_limit (two_parts (fields quota_str))
  ]

  -- `getCGroupCPULimitSingle`
  unfoldable pub get_cgroup_cpu_limit_single : FileSystem → CGroupPath → Result SingleError Carrier
  unfolding v1_limit v2_limit
  get_cgroup_cpu_limit_single files cpu_path = elim cpu_path.mode [
    | v1 ↦ v1_limit files cpu_path
    | v2 ↦ v2_limit files cpu_path
    | unknown ↦ err unknown_type
  ]

  -- The loop's body, on what `getCGroupCPULimitSingle` returned.
  unfoldable pub cpu_limit_round :
      Result SingleError Carrier → CpuLimits Carrier → CpuLimits Carrier
  cpu_limit_round (err e) l = record l {
    leaf_cg_read_err = keep_first l.all_failed l.leaf_cg_read_err e;
  }
  cpu_limit_round (ok cg_lim) l = record {
    min_limit =
        if not (eq cg_lim (of_int (negsuc 0)))
          && not (eq cg_lim (of_int (pos 0)))
          && lt cg_lim l.min_limit
        then cg_lim
        else l.min_limit;
    all_failed = false;
    leaf_cg_read_err = l.leaf_cg_read_err;
  }

  -- What stands behind the loop.
  abbrev pub found_cpu_limit : CpuLimits Carrier → Result Error Carrier
  found_cpu_limit l =
      if l.all_failed
      then elim l.leaf_cg_read_err [ none ↦ err nil_error | some e ↦ err (leaf_failed e) ]
      else ok l.min_limit

  -- The loop of `GetCgroupCPULimit`; the length of the path bounds it.
  unfoldable pub cpu_limit_from : FileSystem → CGroupPath → Result Error Carrier
  unfolding get_cgroup_cpu_limit_single cpu_limit_round for_ancestors
  cpu_limit_from files cpu_path =
      elim (for_ancestors (λ p l. cpu_limit_round (get_cgroup_cpu_limit_single files p) l)
        (suc (length cpu_path.abs_path)) cpu_path
        (record { min_limit = inf; all_failed = true; leaf_cg_read_err = none })) [
          | err e ↦ err (stopped e)
          | ok l ↦ found_cpu_limit l
        ]

  -- `GetCgroupCPULimit`
  unfoldable pub get_cgroup_cpu_limit : FileSystem → Result Error Carrier
  unfolding cpu_limit_from self_subsystem_path
  get_cgroup_cpu_limit files = elim (self_subsystem_path files (codes "cpu")) [
    | err e ↦ err (no_cgroup e)
    | ok cpu_path ↦ cpu_limit_from files cpu_path
  ]
