-- ===== src/Cgresolver/ProcCgroup.antt =====
-- cgresolver/proc_cgroup.go: a process's cgroups, from /proc/<pid>/cgroup, and their directories.
pub mod Table
pub mod Resolve
pub mod Mounted
pub mod First
pub mod Directory
pub mod Usable
pub mod Found
pub mod Chosen
pub mod Ancestors
pub mod Lines
pub mod Whole
pub mod Cgroups
pub mod Composed
pub mod Mapped
pub mod Range
pub mod NoPanic
use procstats.Base.{
  ℕ, zero, suc, Bool, true, false, not, ◌&&◌, ◌||◌, List, [], ◌∷◌, ◌++◌, Option, none, some, ◌==◌,
  if◌then◌else◌, Bytes, codes, equal, Result, ok, err, ◌>>=◌, require, insert,
}
use procstats.Base.Int.{ℤ, pos, negsuc}
use procstats.Cgresolver.CgPath.{CGroupPath, cgroup2_mode}
use procstats.Cgresolver.Mountinfo.{Mount}
use procstats.Go.Paths.{rel, join}
use procstats.Go.Spaces.{trim_space}
use procstats.Go.Strconv.{parse_int}
use procstats.Go.Strings.{has_prefix, split, split_n}

pub record CgProcHierarchy : Type 0 where
  pub hierarchy_id : ℤ
  pub subsystems_csv : Bytes
  pub subsystems : List Bytes
  pub path : Bytes

-- Where the code gives up. `out_of_range` would be a panic of an index.
pub data Error : Type 0 where
  wrong_parts bad_hierarchy_id no_mountpoint : Error
  few_headers wrong_columns bad_number bad_enabled duplicate_column missing_column : Error
  out_of_range : Error

abbrev pub is_v2_id : ℤ → Bool
is_v2_id (pos n) = n == 0
is_v2_id (negsuc n) = false

-- `slices.Equal` on strings.
unfoldable pub equal_lists : List Bytes → List Bytes → Bool
equal_lists [] [] = true
equal_lists [] (_ ∷ _) = false
equal_lists (_ ∷ _) [] = false
equal_lists (a ∷ rest) (b ∷ bs) =
    let tails = equal_lists rest bs in if equal a b then tails else false

-- The directory at `rel_cg_path` from a mount point; `none` goes on to the next mount.
unfoldable pub at_rel : Mount → Bytes → Option CGroupPath
at_rel mp rel_cg_path =
    if has_prefix (codes "../") rel_cg_path
    then none
    else some (record {
      abs_path = join mp.mountpoint rel_cg_path;
      mount_path = mp.mountpoint;
      mode = cgroup2_mode mp.cgroup_v2;
    })

-- The directory of path `p` of a hierarchy in mount `mp`.
unfoldable pub mounted_path : Mount → Bytes → Option CGroupPath
unfolding at_rel
mounted_path mp p = elim (rel mp.root p) [ none ↦ none | some rel_cg_path ↦ at_rel mp rel_cg_path ]

-- Is the mount one of the hierarchy, and inside of the cgroup namespace.
unfoldable pub is_mount_of : CgProcHierarchy → Mount → Bool
unfolding equal_lists
is_mount_of c mp =
    not (has_prefix (codes "/..") mp.root)
    && ((mp.cgroup_v2 && is_v2_id c.hierarchy_id) || equal_lists mp.subsystems c.subsystems)

-- `cgPath`
unfoldable pub cg_path : CgProcHierarchy → List Mount → Result Error CGroupPath
unfolding mounted_path is_mount_of
cg_path c [] = err no_mountpoint
cg_path c (mp ∷ mps) =
    let next = cg_path c mps in
    if is_mount_of c mp then elim (mounted_path mp c.path) [ none ↦ next | some p ↦ ok p ] else next

-- A list that is one empty string is no subsystem at all.
abbrev pub drop_empty : List Bytes → List Bytes
drop_empty ([] ∷ []) = []
drop_empty ss = ss

abbrev pub three_parts : List Bytes → Option (Bytes × Bytes × Bytes)
three_parts (a ∷ b ∷ c ∷ []) = some (a, b, c)
three_parts _ = none

unfoldable pub proc_cgroup_line : Bytes → Result Error CgProcHierarchy
proc_cgroup_line line = do
  (id_part, csv, path_part) ← require (three_parts (split_n 3 (codes ":") line)) wrong_parts
  h_id ← require (parse_int 64 id_part) bad_hierarchy_id
  ok (record {
    hierarchy_id = h_id;
    subsystems_csv = csv;
    subsystems = drop_empty (split b',' csv);
    path = path_part;
  })

unfoldable pub proc_cgroup_lines : List Bytes → Result Error (List CgProcHierarchy)
unfolding proc_cgroup_line
proc_cgroup_lines [] = ok []
proc_cgroup_lines ([] ∷ ls) = proc_cgroup_lines ls
proc_cgroup_lines ((c ∷ l) ∷ ls) = do
  h ← proc_cgroup_line (c ∷ l)
  hs ← proc_cgroup_lines ls
  ok (h ∷ hs)

-- `parseProcPidCgroup`
unfoldable pub parse_proc_pid_cgroup : Bytes → Result Error (List CgProcHierarchy)
unfolding proc_cgroup_lines
parse_proc_pid_cgroup content = proc_cgroup_lines (split b'\n' (trim_space content))

-- The name under which `MapSubsystems` files the v2 hierarchy.
abbrev pub cgroup_v2_quasi_subsystem_name : Bytes
cgroup_v2_quasi_subsystem_name = codes "cgroup2 unified hierarchy"

unfoldable pub map_names : ℕ → List Bytes → List (Bytes × ℕ) → List (Bytes × ℕ)
map_names i [] out = out
map_names i (s ∷ ss) out = map_names i ss (insert s i out)

-- `MapSubsystems`; a pointer into the slice is the index.
unfoldable pub map_from : ℕ → List CgProcHierarchy → List (Bytes × ℕ) → List (Bytes × ℕ)
unfolding map_names
map_from i [] out = out
map_from i (h ∷ hs) out =
    let named = map_names i h.subsystems out in
    map_from (suc i) hs
      (if is_v2_id h.hierarchy_id then insert cgroup_v2_quasi_subsystem_name i named else named)

unfoldable pub map_subsystems : List CgProcHierarchy → List (Bytes × ℕ)
unfolding map_from
map_subsystems controllers = map_from 0 controllers []
