-- ===== src/Cgresolver/Mountinfo/Rows.antt =====
-- The rows of /proc/self/mountinfo as the kernel writes them, for the round trip through
-- cgresolver/mountinfo_parse.go.
pub mod Line
use mathlib.Core.Option
use procstats.Base.{
  ℕ, ◌<◌, Bool, ◌||◌, List, [], ◌∷◌, ◌++◌, Option, none, some, ◌≡◌, ◌≢◌, refl, append_assoc,
  append-nil, arith, ◌==◌, if◌then◌else◌, true, false, Bytes, codes, equal, some, none, All, ◌⊎◌,
  inl, inr, ok,
}
use procstats.Cgresolver.Mountinfo.Octal.{octal_escape, un_octal_escape-octal_escape}
use procstats.Cgresolver.Mountinfo.{
  Mount, un_octal_escape, option_subsystems, cgroup_type, type_fields, cgroup_mount, typed_mount,
  mount_line,
}
use procstats.Go.Strings.Cut.{Lacks, split-append, split-Lacks, split_n-append}
use procstats.Go.Strings.{cut, split, split_n, strip_prefix, push_first}

-- The bytes that the kernel escapes in a path.
abbrev pub is_mangled : ℕ → Bool
is_mangled c = c == b' ' || c == b'\t' || c == b'\n' || c == b'\\'

pub record Row : Type 0 where
  pub id : Bytes
  pub parent : Bytes
  pub device : Bytes
  pub root : Bytes
  pub mountpoint : Bytes
  -- the mount options and the optional fields
  pub optional : List Bytes
  pub fs_type : Bytes
  pub source : Bytes
  pub super_options : List Bytes

-- Parts with a separator between them.
abbrev pub join : ℕ → List Bytes → Bytes
join k [] = []
join k (w ∷ []) = w
join k (w ∷ v ∷ ws) = w ++ k ∷ join k (v ∷ ws)

abbrev pub first_section : Row → List Bytes
first_section r =
    r.id
    ∷ r.parent
    ∷ r.device
    ∷ octal_escape is_mangled r.root
    ∷ octal_escape is_mangled r.mountpoint
    ∷ r.optional

-- The line of a row, with its newline in front of `rest`.
abbrev pub row_line : Row → Bytes
row_line r =
    join b' ' (first_section r)
    ++ (codes " - " ++ (r.fs_type ++ b' ' ∷ (r.source ++ b' ' ∷ join b',' r.super_options)))

-- A field in front of the separator: no space, no newline, and not beginning with a dash.
abbrev pub IsWord : Bytes → Type 0
IsWord [] = Unit
IsWord (c ∷ w) = Lacks b' ' (c ∷ w) × Lacks b'\n' (c ∷ w) × (c ≢ b'-')

abbrev pub IsAbsolute : Bytes → Type 0
IsAbsolute [] = ⊥
IsAbsolute (c ∷ s) = (c ≡ b'/') × All (λ b. b < 256) (c ∷ s)

abbrev pub IsPlain : ℕ → Bytes → Type 0
IsPlain k s = Lacks k s × Lacks b'\n' s

-- What the kernel guarantees of a row.
pub record IsRow (r : Row) : Type 0 where
  pub id_word : IsWord r.id
  pub parent_word : IsWord r.parent
  pub device_word : IsWord r.device
  pub root_path : IsAbsolute r.root
  pub mountpoint_path : IsAbsolute r.mountpoint
  pub optional_words : All IsWord r.optional
  pub fs_type_plain : IsPlain b' ' r.fs_type
  pub source_plain : IsPlain b' ' r.source
  pub super_options_plain : All (IsPlain b',') r.super_options
  pub super_options_ne_nil : r.super_options ≢ []

-- The options of a v1 mount that are flags; the others name its subsystems.
abbrev pub is_flag : Bytes → Bool
is_flag o = equal o (codes "ro") || equal o (codes "rw") || equal o []

abbrev pub named_subsystems : List Bytes → List Bytes
named_subsystems [] = []
named_subsystems (o ∷ os) = let rest = named_subsystems os in if is_flag o then rest else o ∷ rest

-- Whether a file system type is the one of cgroup v2, if it is one of cgroups.
abbrev pub is_v2_type : Bytes → Option Bool
is_v2_type t =
    if equal t (codes "cgroup2")
    then some true
    else if equal t (codes "cgroup")
    then some false
    else none

-- The mount that a row stands for, if it is one of a cgroup file system.
abbrev pub row_mount : Row → Option Mount
row_mount r =
    Option.map
      (λ is_cg2. record {
        mountpoint = r.mountpoint;
        root = r.root;
        subsystems = if is_cg2 then [] else named_subsystems r.super_options;
        cgroup_v2 = is_cg2;
      })
      (is_v2_type r.fs_type)
