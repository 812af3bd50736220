-- ===== src/Cgrouplimits/MemLimit/Bounds.antt =====
-- The bounds of the limit that `GetCgroupMemoryLimit` gives.
use procstats.Base.{
  suc, ◌≡◌, inl, inr, refl, Bool, true, false, arith, Bytes, codes, length, Option, none, some,
  Result, ok, err, Result-cases, Satisfies, holds, fails,
}
use procstats.Base.Int.{ℤ, pos, ◌<ℤ◌, ◌≤ℤ◌}
use procstats.Cgresolver.CgPath.Invariant.{for_ancestors-Satisfies}
use procstats.Cgresolver.CgPath.{CGroupPath, Stop}
use procstats.Cgresolver.ProcCgroup.Resolve.{self_subsystem_path}
use procstats.Cgrouplimits.MemLimit.{
  FileError, Limits, max_int64, Error, leaf_failed, nil_error, stopped, read_int_val_file,
  limit_round, limit_file, found_limit, memory_limit_from, get_cgroup_memory_limit,
}
use procstats.Go.Files.{FileSystem}

-- A positive int64.
abbrev pub IsLimit : ℤ → Type 0
IsLimit n = (pos 0 <ℤ n) × (n ≤ℤ max_int64)

abbrev Holds : Limits → Type 0
Holds l = IsLimit l.min_limit

limit_round-Holds : (r : Result FileError ℤ) (l : Limits) → Holds l → Holds (limit_round r l)
unfolding limit_round
limit_round-Holds (err e) l h = h
limit_round-Holds (ok v) l h = ground arith

found_limit-IsLimit : (l : Limits) → Holds l → Satisfies IsLimit (found_limit l)
found_limit-IsLimit l h = by_flag l.all_failed refl
  where
    by_flag : (b : Bool) → l.all_failed ≡ b → Satisfies IsLimit (found_limit l)
    by_flag false e = rw e (holds h)
    by_flag true e = rw e (by_error l.leaf_cg_read_err)
      where
        by_error :
            (o : Option FileError)
            → Satisfies IsLimit (elim o as (λ x. Result Error ℤ) [
              | none ↦ err nil_error
              | some e ↦ err (leaf_failed e)
            ])
        by_error none = fails
        by_error (some e) = fails

loop-IsLimit :
    (r : Result Stop Limits)
    → Satisfies Holds r
    → Satisfies IsLimit
        (elim r as (λ x. Result Error ℤ) [ err e ↦ err (stopped e) | ok l ↦ found_limit l ])
loop-IsLimit (err e) h = fails
loop-IsLimit (ok l) (holds h) = found_limit-IsLimit l h

memory_limit_from-IsLimit :
    (files : FileSystem) (path : CGroupPath) → Satisfies IsLimit (memory_limit_from files path)
unfolding memory_limit_from
memory_limit_from-IsLimit files path = by_file (limit_file path.mode) refl
  where
    by_file :
        (o : Option Bytes)
        → limit_file path.mode ≡ o
        → Satisfies IsLimit (memory_limit_from files path)
    by_file none e = rw (e, memory_limit_from) fails
    by_file (some file) e =
        rw (e, memory_limit_from)
          (loop-IsLimit _ (
            for_ancestors-Satisfies Holds
              (λ p l. limit_round (read_int_val_file files p.abs_path file) l)
              (λ p l h. limit_round-Holds (read_int_val_file files p.abs_path file) l h)
              (suc (length path.abs_path)) path
              (record { min_limit = max_int64; all_failed = true; leaf_cg_read_err = none })
              (omega arith, omega arith)))

-- Every limit that `GetCgroupMemoryLimit` returns is a positive int64, whatever the files hold.
pub get_cgroup_memory_limit-IsLimit :
    (files : FileSystem) → Satisfies IsLimit (get_cgroup_memory_limit files)
unfolding get_cgroup_memory_limit
get_cgroup_memory_limit-IsLimit files =
    elim (Result-cases (self_subsystem_path files (codes "memory"))) [
      | inl (e, q) ↦ rw (q, get_cgroup_memory_limit) fails
      | inr (path, q) ↦ rw (q, get_cgroup_memory_limit) (memory_limit_from-IsLimit files path)
    ]
