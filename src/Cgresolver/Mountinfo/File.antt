-- ===== src/Cgresolver/Mountinfo/File.antt =====
-- `getCGroupMountsFromMountinfo` of cgresolver/mountinfo_parse.go on whole files, and the
-- subsystems that it finds.
use procstats.Base.{
  ℕ, Bool, true, false, ◌||◌, List, [], ◌∷◌, ◌++◌, Option, none, some, ◌≡◌, ◌≢◌, refl, ap, arith,
  Bytes, codes, equal, equal_iff, All, All-append, length, length-append, Bool-cases, inl, inr, ok,
  Satisfies, holds, Satisfies-ok, bind-Satisfies, bind-Satisfies_any,
}
use procstats.Cgresolver.Mountinfo.Rows.Line.{first_section-IsWord, mount_line-row}
use procstats.Cgresolver.Mountinfo.Rows.{
  Row, IsRow, IsWord, IsPlain, join, first_section, row_line, row_mount,
}
use procstats.Cgresolver.Mountinfo.{
  Mount, option_subsystems, cgroup_mount, typed_mount, mount_line, mount_lines, add_mount,
  get_cgroup_mounts_from_mountinfo,
}
use procstats.Go.Strings.Cut.{Lacks, split-append}
use procstats.Go.Strings.{split}

-- The file of the rows, each line with its newline.
abbrev pub mountinfo : List Row → Bytes
mountinfo [] = []
mountinfo (r ∷ rs) = row_line r ++ b'\n' ∷ mountinfo rs

-- The cgroup mounts among the rows, in order.
abbrev pub row_mounts : List Row → List Mount
row_mounts [] = []
row_mounts (r ∷ rs) = add_mount (row_mount r) (row_mounts rs)

join-Lacks : (k : ℕ) (ws : List Bytes) → k ≢ b'\n' → All (Lacks b'\n') ws → Lacks b'\n' (join k ws)
join-Lacks k [] h _ = tt
join-Lacks k (w ∷ []) h (hw, _) = hw
join-Lacks k (w ∷ v ∷ ws) h (hw, hs) = All-append _ w _ hw (h, join-Lacks k (v ∷ ws) h hs)

words-Lacks : (ws : List Bytes) → All IsWord ws → All (Lacks b'\n') ws
words-Lacks [] _ = tt
words-Lacks ([] ∷ ws) (_, hs) = (tt, words-Lacks ws hs)
words-Lacks ((c ∷ w) ∷ ws) (hw, hs) = (hw.1, words-Lacks ws hs)

options-Lacks : (os : List Bytes) → All (IsPlain b',') os → All (Lacks b'\n') os
options-Lacks [] _ = tt
options-Lacks (o ∷ os) (ho, hs) = (ho.1, options-Lacks os hs)

row_line-Lacks : (r : Row) → IsRow r → Lacks b'\n' (row_line r)
row_line-Lacks r h =
    All-append _ (join b' ' (first_section r)) _
      (join-Lacks b' ' (first_section r) (omega arith)
        (words-Lacks (first_section r) (first_section-IsWord h)))
      (
        omega arith,
        (
          omega arith,
          (
            omega arith,
            All-append _ r.fs_type _ h.fs_type_plain.1 (
              omega arith,
              All-append _ r.source _ h.source_plain.1 (
                omega arith,
                join-Lacks b',' r.super_options (omega arith)
                    (options-Lacks r.super_options h.super_options_plain),
              ),
            ),
          ),
        ),
      )

mount_lines-cons :
    (l : Bytes) (ls : List Bytes) (m : Option Mount) (ms : List Mount)
    → mount_line l ≡ ok m
    → mount_lines ls ≡ ok ms
    → l ≢ []
    → mount_lines (l ∷ ls) ≡ ok (add_mount m ms)
unfolding mount_lines
mount_lines-cons [] ls m ms e q n = absurd (n refl)
mount_lines-cons (c ∷ l) ls m ms e q n = rw (e, q)

row_line-ne-nil : (r : Row) → row_line r ≢ []
row_line-ne-nil r e = omega (arith, ap length e, length-append (join b' ' (first_section r)) _)

rows-mount_lines :
    (rs : List Row) → All IsRow rs → mount_lines (split b'\n' (mountinfo rs)) ≡ ok (row_mounts rs)
rows-mount_lines [] _ = unfold split mount_lines in refl
rows-mount_lines (r ∷ rs) (h, hs) =
    rw (split-append b'\n' (row_line r) (mountinfo rs) (row_line-Lacks r h)) (
      mount_lines-cons (row_line r) _ (row_mount r) (row_mounts rs) (mount_line-row r h)
        (rows-mount_lines rs hs) (row_line-ne-nil r))

-- A mountinfo file as the kernel writes it is read back: the result is the cgroup and cgroup2 mounts
-- among its rows, in order, with the root and the mount point unescaped and, for cgroup v1, the
-- subsystems among the options. Rows of other file systems are skipped.
pub get_cgroup_mounts-mountinfo :
    (rs : List Row)
    → All IsRow rs
    → get_cgroup_mounts_from_mountinfo (mountinfo rs) ≡ ok (row_mounts rs)
unfolding get_cgroup_mounts_from_mountinfo
get_cgroup_mounts-mountinfo rs h = rows-mount_lines rs h

-- The name of a subsystem, as opposed to an option of the mount.
abbrev pub IsSubsystem : Bytes → Type 0
IsSubsystem o = (o ≢ []) × (o ≢ codes "ro") × (o ≢ codes "rw")

-- A v2 mount names no subsystems, and a v1 mount none that is empty, `ro` or `rw`.
abbrev pub IsMount : Mount → Type 0
IsMount m = (m.cgroup_v2 ≡ true → m.subsystems ≡ []) × All IsSubsystem m.subsystems

option_subsystems-IsSubsystem : (os : List Bytes) → All IsSubsystem (option_subsystems os)
unfolding option_subsystems
option_subsystems-IsSubsystem [] = tt
option_subsystems-IsSubsystem (o ∷ os) =
    let rest = option_subsystems-IsSubsystem os in
    elim (Bool-cases (equal o (codes "ro") || equal o (codes "rw") || equal o [])) [
      | inl e ↦ rw e rest
      | inr e ↦
          rw e (
            ground (arith, equal_iff o [], equal_iff o (codes "ro"), equal_iff o (codes "rw")),
            rest,
          )
    ]

abbrev IsMount? : Option Mount → Type 0
IsMount? none = Unit
IsMount? (some m) = IsMount m

v2-IsMount :
    (m r : Bytes) → IsMount (record { mountpoint = m; root = r; subsystems = []; cgroup_v2 = true })
v2-IsMount m r = ((λ _. refl), tt)

v1-IsMount :
    (m r : Bytes) (os : List Bytes)
    → IsMount
        (record { mountpoint = m; root = r; subsystems = option_subsystems os; cgroup_v2 = false })
v1-IsMount m r os = ((λ e. cc), option_subsystems-IsSubsystem os)

cgroup_mount-IsMount :
    (is_cg2 : Bool) (section1 options : Bytes)
    → Satisfies IsMount (cgroup_mount is_cg2 section1 options)
unfolding cgroup_mount
cgroup_mount-IsMount true section1 options = search (bind-Satisfies_any, holds, v2-IsMount)
cgroup_mount-IsMount false section1 options = search (bind-Satisfies_any, holds, v1-IsMount)

typed_mount-IsMount :
    (o : Option Bool) (section1 options : Bytes)
    → Satisfies IsMount? (typed_mount o section1 options)
unfolding typed_mount
typed_mount-IsMount none section1 options = holds tt
typed_mount-IsMount (some is_cg2) section1 options =
    bind-Satisfies (cgroup_mount-IsMount is_cg2 section1 options) (λ m h. holds h)

mount_line-IsMount : (line : Bytes) → Satisfies IsMount? (mount_line line)
unfolding mount_line
mount_line-IsMount line = search (bind-Satisfies_any, typed_mount-IsMount)

add_mount-IsMount :
    (m : Option Mount) (ms : List Mount)
    → IsMount? m
    → All IsMount ms
    → All IsMount (add_mount m ms)
add_mount-IsMount none ms _ h = h
add_mount-IsMount (some m) ms hm h = (hm, h)

mount_lines-IsMount : (ls : List Bytes) → Satisfies (All IsMount) (mount_lines ls)
unfolding mount_lines
mount_lines-IsMount [] = holds tt
mount_lines-IsMount ([] ∷ ls) = mount_lines-IsMount ls
mount_lines-IsMount ((c ∷ l) ∷ ls) =
    bind-Satisfies (mount_line-IsMount (c ∷ l))
      λ m hm. bind-Satisfies (mount_lines-IsMount ls) λ ms h. holds (add_mount-IsMount m ms hm h)

-- Whatever mountinfo holds, if it is parsed then no cgroup2 mount among the results has subsystems,
-- and no subsystem of a cgroup v1 mount is empty, `ro` or `rw`.
pub get_cgroup_mounts-IsMount :
    (content : Bytes) (ms : List Mount)
    → get_cgroup_mounts_from_mountinfo content ≡ ok ms
    → All IsMount ms
unfolding get_cgroup_mounts_from_mountinfo
get_cgroup_mounts-IsMount content ms = Satisfies-ok ms (mount_lines-IsMount (split b'\n' content))
