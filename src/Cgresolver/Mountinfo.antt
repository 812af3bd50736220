-- ===== src/Cgresolver/Mountinfo.antt =====
-- cgresolver/mountinfo_parse.go: the cgroup mounts that /proc/self/mountinfo lists.
pub mod Octal
pub mod Rows
pub mod File
use procstats.Base.{
  ℕ, zero, suc, Bool, true, false, not, ◌||◌, List, [], ◌∷◌, ◌++◌, Option, none, some, ◌≡◌, refl,
  ◌==◌, if◌then◌else◌, Bytes, codes, equal, length, get_elem?, Result, ok, err, ◌>>=◌, require,
}
use procstats.Go.Strconv.{parse_uint}
use procstats.Go.Strings.{cut, split, split_n}

pub record Mount : Type 0 where
  pub mountpoint : Bytes
  pub root : Bytes
  pub subsystems : List Bytes
  pub cgroup_v2 : Bool

-- Where the parser gives up. `out_of_fuel` is no error of the program: see `Octal`.
pub data Error : Type 0 where
  bad_offset bad_escape out_of_fuel : Error
  no_separator few_fields few_mount_fields : Error

-- The three bytes of an escape and what follows it.
abbrev pub escape_parts : Bytes → Option (Bytes × Bytes)
escape_parts (x ∷ y ∷ z ∷ rest) = some (x ∷ y ∷ z ∷ [], rest)
escape_parts _ = none

-- The loop of `unOctalEscape`: `b` is the builder's content, `str` what is left to read. Each round
-- takes a backslash and three bytes off `str`.
unfoldable pub un_octal_loop : ℕ → Bytes → Bytes → Result Error Bytes
unfolding cut
un_octal_loop zero b str = err out_of_fuel
un_octal_loop (suc fuel) b str = elim (cut (b'\\' ∷ []) str) [
  | none ↦ ok (b ++ str)
  | some (before, after) ↦ do
    (esc, rest) ← require (escape_parts after) bad_offset
    ascii_val ← require (parse_uint 8 8 esc) bad_escape
    un_octal_loop fuel (b ++ (before ++ ascii_val ∷ [])) rest
]

unfoldable pub un_octal_escape : Bytes → Result Error Bytes
unfolding un_octal_loop
un_octal_escape str = un_octal_loop (suc (length str)) [] str

-- The subsystems among a v1 mount's options.
unfoldable pub option_subsystems : List Bytes → List Bytes
option_subsystems [] = []
option_subsystems (o ∷ os) =
    let rest = option_subsystems os in
    if equal o (codes "ro") || equal o (codes "rw") || equal o [] then rest else o ∷ rest

-- The switch on the file system type: is it cgroup2, or `none` for what is no cgroup.
abbrev pub cgroup_type : Bytes → Option Bool
cgroup_type t =
    if equal t (codes "cgroup")
    then some false
    else if equal t (codes "cgroup2")
    then some true
    else none

-- The parts of a line in front of the separator that are used: the root and the mount point.
abbrev pub mount_fields : List Bytes → Option (Bytes × Bytes)
mount_fields (_ ∷ _ ∷ _ ∷ r ∷ m ∷ _) = some (r, m)
mount_fields _ = none

-- The file system type and the options behind the separator.
abbrev pub type_fields : List Bytes → Option (Bytes × Bytes)
type_fields (t ∷ _ ∷ o ∷ _) = some (t, o)
type_fields _ = none

unfoldable pub cgroup_mount : Bool → Bytes → Bytes → Result Error Mount
unfolding un_octal_escape option_subsystems
cgroup_mount is_cg2 section1 options = do
  (root_field, mount_field) ← require (mount_fields (split b' ' section1)) few_mount_fields
  mntpnt ← un_octal_escape mount_field
  root_path ← un_octal_escape root_field
  ok (record {
    mountpoint = mntpnt;
    root = root_path;
    subsystems = if is_cg2 then [] else option_subsystems (split b',' options);
    cgroup_v2 = is_cg2;
  })

-- A mount of a cgroup file system; `none` is another file system, which is skipped.
unfoldable pub typed_mount : Option Bool → Bytes → Bytes → Result Error (Option Mount)
unfolding cgroup_mount
typed_mount none section1 options = ok none
typed_mount (some is_cg2) section1 options = do
  m ← cgroup_mount is_cg2 section1 options
  ok (some m)

-- A round of the loop on a line that is not empty; `none` is a line that is skipped.
unfoldable pub mount_line : Bytes → Result Error (Option Mount)
unfolding typed_mount
mount_line line = do
  (section1, section2) ← require (cut (codes " - ") line) no_separator
  (fs_type, options) ← require (type_fields (split_n 3 (codes " ") section2)) few_fields
  typed_mount (cgroup_type fs_type) section1 options

abbrev pub add_mount : Option Mount → List Mount → List Mount
add_mount none ms = ms
add_mount (some m) ms = m ∷ ms

unfoldable pub mount_lines : List Bytes → Result Error (List Mount)
unfolding mount_line
mount_lines [] = ok []
mount_lines ([] ∷ ls) = mount_lines ls
mount_lines ((c ∷ l) ∷ ls) = do m ← mount_line (c ∷ l); ms ← mount_lines ls; ok (add_mount m ms)

-- `getCGroupMountsFromMountinfo`
unfoldable pub get_cgroup_mounts_from_mountinfo : Bytes → Result Error (List Mount)
unfolding mount_lines
get_cgroup_mounts_from_mountinfo mountinfo = mount_lines (split b'\n' mountinfo)
