-- ===== src/Cgrouplimits/MemLimit.antt =====
-- `readIntValFile` and `GetCgroupMemoryLimit` of cgrouplimits/cgroup_linux.go.
pub mod Minimum
pub mod Least
pub mod Bounds
pub mod IntFile
pub mod Kernel
use procstats.Base.{
  ℕ, suc, ◌-◌, ◌^◌, Bool, true, false, ◌&&◌, List, [], ◌∷◌, Option, none, some, if◌then◌else◌,
  Bytes, codes, equal, length, Result, ok, err, ◌>>=◌, require,
}
use procstats.Base.Int.{ℤ, pos, ltb_ℤ}
use procstats.Cgresolver.CgPath.{CgMode, unknown, v1, v2, CGroupPath, Stop, for_ancestors}
use procstats.Cgresolver.ProcCgroup.Resolve
use procstats.Cgresolver.ProcCgroup.Resolve.{self_subsystem_path}
use procstats.Go.Files.{ReadError, FileSystem, read_in}
use procstats.Go.Spaces.{trim_space}
use procstats.Go.Strconv.{parse_int}

-- Where `readIntValFile` gives up.
pub data FileError : Type 0 where
  unreadable : ReadError → FileError
  no_integer : FileError

-- `math.MaxInt64`
abbrev pub max_int64 : ℤ
max_int64 = pos (2 ^ 63 - 1)

unfoldable pub int_val : Bytes → Option ℤ
int_val contents =
    let trimmed = trim_space contents in
    if equal trimmed (codes "max") then some max_int64 else parse_int 64 trimmed

-- `readIntValFile(os.DirFS(dir), path)`
unfoldable pub read_int_val_file : FileSystem → Bytes → Bytes → Result FileError ℤ
unfolding int_val read_in
read_int_val_file files dir path = elim (read_in files dir path) [
  | err e ↦ err (unreadable e)
  | ok conts ↦ require (int_val conts) no_integer
]

-- The variables of the loop over the cgroup and its ancestors.
pub record Limits : Type 0 where
  pub min_limit : ℤ
  pub all_failed : Bool
  pub leaf_cg_read_err : Option FileError

-- The first error is kept while every read has failed.
abbrev pub keep_first : {E : Type 0} → Bool → Option E → E → Option E
keep_first true none e = some e
keep_first true (some f) e = some f
keep_first false o e = o

-- The loop's body, on what `readIntValFile` returned.
unfoldable pub limit_round : Result FileError ℤ → Limits → Limits
limit_round (err e) l = record l { leaf_cg_read_err = keep_first l.all_failed l.leaf_cg_read_err e }
limit_round (ok limit_bytes) l = record {
  min_limit =
      if ltb_ℤ (pos 0) limit_bytes && ltb_ℤ limit_bytes l.min_limit
      then limit_bytes
      else l.min_limit;
  all_failed = false;
  leaf_cg_read_err = l.leaf_cg_read_err;
}

-- Where `GetCgroupMemoryLimit` gives up. `nil_error` would be a nil error beside the result -1.
pub data Error : Type 0 where
  no_cgroup : Resolve.Error → Error
  unknown_type nil_error : Error
  leaf_failed : FileError → Error
  stopped : Stop → Error

unfoldable pub limit_file : CgMode → Option Bytes
limit_file unknown = none
limit_file v1 = some (codes "memory.limit_in_bytes")
limit_file v2 = some (codes "memory.max")

-- What stands behind the loop.
abbrev pub found_limit : Limits → Result Error ℤ
found_limit l =
    if l.all_failed
    then elim l.leaf_cg_read_err [ none ↦ err nil_error | some e ↦ err (leaf_failed e) ]
    else ok l.min_limit

-- `GetCgroupMemoryLimit`. Each round shortens the path, so that its length bounds the loop.
unfoldable pub memory_limit_from : FileSystem → CGroupPath → Result Error ℤ
unfolding read_int_val_file limit_round limit_file for_ancestors
memory_limit_from files mem_path = elim (limit_file mem_path.mode) [
  | none ↦ err unknown_type
  | some file ↦
      elim (for_ancestors (λ p l. limit_round (read_int_val_file files p.abs_path file) l)
        (suc (length mem_path.abs_path)) mem_path
        (record { min_limit = max_int64; all_failed = true; leaf_cg_read_err = none })) [
          | err e ↦ err (stopped e)
          | ok l ↦ found_limit l
        ]
]

unfoldable pub get_cgroup_memory_limit : FileSystem → Result Error ℤ
unfolding memory_limit_from self_subsystem_path
get_cgroup_memory_limit files = elim (self_subsystem_path files (codes "memory")) [
  | err e ↦ err (no_cgroup e)
  | ok mem_path ↦ memory_limit_from files mem_path
]
