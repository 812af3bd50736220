-- ===== src/Tests/Resolver.antt =====
-- cgresolver/ at concrete inputs.
use procstats.Base.{ℕ, ◌+◌}
use procstats.Base.{◌≡◌, refl, true, false, List, [], ◌∷◌, arith, Bytes, codes, equal, All, ok, err}
use procstats.Cgresolver.CgPath.Walk.{IsName, at, for_ancestors-visited}
use procstats.Cgresolver.CgPath.{CGroupPath, v2, panic, for_ancestors}
use procstats.Cgresolver.Mountinfo.File.{
  mountinfo, row_mounts, get_cgroup_mounts-mountinfo, IsMount, get_cgroup_mounts-IsMount,
}
use procstats.Cgresolver.Mountinfo.Octal.{decode, un_octal_escape-decode}
use procstats.Cgresolver.Mountinfo.Rows.{Row, IsRow}
use procstats.Cgresolver.Mountinfo.{
  Mount, option_subsystems, un_octal_escape, get_cgroup_mounts_from_mountinfo,
}
use procstats.Go.Strconv.{parse_uint}
use procstats.Go.Strings.{trim_suffix, split, split_n}

un_octal_escape-decode_example : un_octal_escape (codes "a\\040b\\9") ≡ decode (codes "a\\040b\\9")
un_octal_escape-decode_example = un_octal_escape-decode (codes "a\\040b\\9")

abbrev v2_row : Row
v2_row = record {
  id = codes "29";
  parent = codes "28";
  device = codes "0:26";
  root = codes "/";
  mountpoint = codes "/sys/fs/cg roup";
  optional = codes "rw,nosuid" ∷ codes "shared:4" ∷ [];
  fs_type = codes "cgroup2";
  source = codes "cgroup2";
  super_options = codes "rw" ∷ codes "nsdelegate" ∷ [];
}

abbrev v1_row : Row
v1_row = record {
  id = codes "30";
  parent = codes "28";
  device = codes "0:27";
  root = codes "/docker";
  mountpoint = codes "/sys/fs/cgroup/cpu";
  optional = [];
  fs_type = codes "cgroup";
  source = codes "cgroup";
  super_options = codes "rw" ∷ codes "cpu" ∷ codes "cpuacct" ∷ [];
}

abbrev mounts : List Mount
mounts =
    record {
      mountpoint = codes "/sys/fs/cg roup";
      root = codes "/";
      subsystems = [];
      cgroup_v2 = true;
    }
    ∷ record {
      mountpoint = codes "/sys/fs/cgroup/cpu";
      root = codes "/docker";
      subsystems = codes "cpu" ∷ codes "cpuacct" ∷ [];
      cgroup_v2 = false;
    }
    ∷ []

row_mounts_test : row_mounts (v2_row ∷ v1_row ∷ []) ≡ mounts
unfolding equal option_subsystems
row_mounts_test = refl

v2_row-IsRow : IsRow v2_row
v2_row-IsRow = ground arith

v1_row-IsRow : IsRow v1_row
v1_row-IsRow = ground arith

get_cgroup_mounts-mountinfo_example :
    get_cgroup_mounts_from_mountinfo (mountinfo (v2_row ∷ v1_row ∷ []))
    ≡ ok (row_mounts (v2_row ∷ v1_row ∷ []))
get_cgroup_mounts-mountinfo_example =
    get_cgroup_mounts-mountinfo (v2_row ∷ v1_row ∷ []) (v2_row-IsRow, (v1_row-IsRow, tt))

abbrev mount_text : Bytes
mount_text =
    codes
      "25 30 0:23 / /proc rw - proc proc rw\n29 28 0:26 / /sys/fs/cg\\040roup rw shared:4 - cgroup2 cgroup2 rw\n30 28 0:27 /docker /sys/fs/cgroup/cpu rw - cgroup cgroup rw,cpu,cpuacct\n"

mount_text_parsed : get_cgroup_mounts_from_mountinfo mount_text ≡ ok mounts
unfolding get_cgroup_mounts_from_mountinfo split split_n equal parse_uint
mount_text_parsed = refl

get_cgroup_mounts-IsMount_example : All IsMount mounts
get_cgroup_mounts-IsMount_example = get_cgroup_mounts-IsMount mount_text mounts mount_text_parsed

mount_bare : trim_suffix (codes "/") (codes "/sys/fs/cgroup") ≡ codes "/sys/fs/cgroup"
unfolding trim_suffix
mount_bare = refl

mount_slash : trim_suffix (codes "/") (codes "/sys/fs/cgroup/") ≡ codes "/sys/fs/cgroup"
unfolding trim_suffix
mount_slash = refl

-- The loop that counts the directories, from /sys/fs/cgroup/a/b up to /sys/fs/cgroup.
abbrev count_round : CGroupPath → ℕ → ℕ
count_round p n = n + 1

names-IsName : All IsName (codes "b" ∷ codes "a" ∷ [])
names-IsName = ground arith

for_ancestors-visited_example :
    for_ancestors count_round 5
      (at (codes "/sys/fs/cgroup") v2 (codes "/sys/fs/cgroup/") (codes "b" ∷ codes "a" ∷ []))
      0
    ≡ ok 3
for_ancestors-visited_example =
    for_ancestors-visited (codes "/sys/fs/cgroup") mount_bare v2 count_round 5
      (codes "/sys/fs/cgroup/") (codes "b" ∷ codes "a" ∷ []) 0 mount_slash names-IsName
      (omega arith)

-- A directory that is not below the mount point.
above_mount_panics :
    for_ancestors count_round 9
      (record { abs_path = codes "/sys"; mount_path = codes "/sys/cpu"; mode = v2 })
      0
    ≡ err panic
unfolding for_ancestors equal
above_mount_panics = refl
