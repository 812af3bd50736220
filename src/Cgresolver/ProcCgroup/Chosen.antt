-- ===== src/Cgresolver/ProcCgroup/Chosen.antt =====
-- `cgPath` of cgresolver/proc_cgroup.go on clean paths: the mount that it takes, and the directory there, in
-- terms of what the rows of the mounts and the process's path have.
use mathlib.Core.Path.{subst}
use mathlib.Core.Option
use procstats.Base.{
  ◌≡◌, refl, sym, ap, ◌∙◌, true, false, List, [], ◌∷◌, ◌++◌, Option, none, some, Bytes, All, ◌⊎◌,
  inl, inr, Bool-cases, Option-cases, Result, ok, err, Bool, if◌then◌else◌,
}
use procstats.Cgresolver.CgPath.{CgMode, v1, v2, cgroup2_mode, CGroupPath}
use procstats.Cgresolver.Mountinfo.{Mount}
use procstats.Cgresolver.ProcCgroup.Directory.{directory_in, mounted_path-directory_in}
use procstats.Cgresolver.ProcCgroup.First.{IsPassed, cg_path_pass, cg_path_use}
use procstats.Cgresolver.ProcCgroup.Mounted.{in_mount}
use procstats.Cgresolver.ProcCgroup.Usable.{
  IsOutside, IsOfHierarchy, is_mount_of_iff, is_mount_of_refused,
}
use procstats.Cgresolver.ProcCgroup.{
  CgProcHierarchy, Error, no_mountpoint, mounted_path, is_mount_of, cg_path,
}
use procstats.Go.Paths.Clean.{IsElement, rooted}

-- The names of a mount point that is not the root, and of the root of the mount.
abbrev pub HasNames : Mount → Bytes → List Bytes → List Bytes → Type 0
HasNames mp m ms rs =
    All IsElement (m ∷ ms)
    × All IsElement rs
    × (mp.mountpoint ≡ rooted (m ∷ ms))
    × (mp.root ≡ rooted rs)

-- The root is outside of the cgroup namespace, or the paths are clean.
abbrev pub IsClean : Mount → Type 0
IsClean mp =
    IsOutside mp ⊎ ((m : Bytes) × (ms : List Bytes) × (rs : List Bytes) × HasNames mp m ms rs)

-- What the mount has for a path: the names of a directory, or none.
abbrev pub Gives : Mount → List Bytes → Option (List Bytes) → Type 0
Gives mp ts d =
    (m : Bytes) × (ms : List Bytes) × (rs : List Bytes) × HasNames mp m ms rs
    × (directory_in (m ∷ ms) rs ts ≡ d)

-- The version of cgroups that a mount is for.
abbrev pub mount_mode : Mount → CgMode
mount_mode mp = if mp.cgroup_v2 then v2 else v1

-- The directory with these names, on a mount.
abbrev pub on_mount : Mount → List Bytes → CGroupPath
on_mount mp d = record { abs_path = rooted d; mount_path = mp.mountpoint; mode = mount_mode mp }

cgroup2_mode_if : (b : Bool) → cgroup2_mode b ≡ (if b then v2 else v1)
unfolding cgroup2_mode
cgroup2_mode_if true = refl
cgroup2_mode_if false = refl

pub cgroup2_mode-mount_mode : (mp : Mount) → cgroup2_mode mp.cgroup_v2 ≡ mount_mode mp
cgroup2_mode-mount_mode mp = cgroup2_mode_if mp.cgroup_v2

in_mount-on_mount : (mp : Mount) (d : List Bytes) → in_mount mp (rooted d) ≡ on_mount mp d
in_mount-on_mount mp d =
    ap (λ v. record { abs_path = rooted d; mount_path = mp.mountpoint; mode = v })
      (cgroup2_mode-mount_mode mp)

module _ (c : CgProcHierarchy) (ts : List Bytes) where
  -- A mount that is outside of the namespace, of another hierarchy, or without the path.
  abbrev pub IsPassedOver : Mount → Type 0
  IsPassedOver mp = IsOutside mp ⊎ (¬ IsOfHierarchy c mp ⊎ Gives mp ts none)

  -- A mount of the hierarchy, with the names of the directory that it has for the path.
  abbrev pub IsUsed : Mount → List Bytes → Type 0
  IsUsed mp d = ¬ IsOutside mp × IsOfHierarchy c mp × Gives mp ts (some d)

  -- The directory on the first mount of the hierarchy that has the path, or no mount.
  pub data IsChosen : List Mount → Result Error CGroupPath → Type 0 where
    none_usable : {mps : List Mount} → All IsPassedOver mps → IsChosen mps (err no_mountpoint)
    first_usable :
        (before : List Mount) (mp : Mount) (after : List Mount) (d : List Bytes)
        → All IsPassedOver before
        → IsUsed mp d
        → IsChosen (before ++ mp ∷ after) (ok (on_mount mp d))

  module _ (ht : All IsElement ts) (et : c.path ≡ rooted ts) where
    mounted_path-Gives :
        (mp : Mount) (d : Option (List Bytes))
        → Gives mp ts d
        → mounted_path mp c.path ≡ Option.map (λ e. in_mount mp (rooted e)) d
    mounted_path-Gives mp d (m, ms, rs, (hm, hr, em, er), e) =
        ap (mounted_path mp) et
        ∙ mounted_path-directory_in mp m ms hm em rs ts hr ht er
        ∙ ap (Option.map (λ e. in_mount mp (rooted e))) e

    pub over-IsPassed : (mp : Mount) → IsPassedOver mp → IsPassed c mp
    over-IsPassed mp (inr (inr g)) = inr (mounted_path-Gives mp none g)
    over-IsPassed mp (inl o) = elim (Bool-cases (is_mount_of c mp)) [
      | inr f ↦ inl f
      | inl t ↦ absurd (((is_mount_of_iff c mp).0 t).0 o)
    ]
    over-IsPassed mp (inr (inl n)) = elim (Bool-cases (is_mount_of c mp)) [
      | inr f ↦ inl f
      | inl t ↦ absurd (n ((is_mount_of_iff c mp).0 t).1)
    ]

    pub all-IsPassed : (mps : List Mount) → All IsPassedOver mps → All (IsPassed c) mps
    all-IsPassed [] h = h
    all-IsPassed (mp ∷ mps) (h, hs) = (over-IsPassed mp h, all-IsPassed mps hs)

    cg_path_used :
        (mp : Mount) (mps : List Mount) (d : List Bytes)
        → IsUsed mp d
        → cg_path c (mp ∷ mps) ≡ ok (on_mount mp d)
    cg_path_used mp mps d (n, h, g) =
        cg_path_use c mp mps _ ((is_mount_of_iff c mp).1 (n, h)) (mounted_path-Gives mp (some d) g)
        ∙ ap ok (in_mount-on_mount mp d)

    verdict : (mp : Mount) → IsClean mp → IsPassedOver mp ⊎ ((d : List Bytes) × IsUsed mp d)
    verdict mp (inl o) = inl (inl o)
    verdict mp (inr (m, ms, rs, h)) = elim (Bool-cases (is_mount_of c mp)) [
      | inr f ↦ inl (elim (is_mount_of_refused c mp f) [ inl o ↦ inl o | inr n ↦ inr (inl n) ])
      | inl t ↦ elim (Option-cases (directory_in (m ∷ ms) rs ts)) [
        | inl e ↦ inl (inr (inr (m, ms, rs, h, e)))
        | inr (d, e) ↦ let (n, k) = (is_mount_of_iff c mp).0 t in inr (d, (n, k, (m, ms, rs, h, e)))
      ]
    ]

    pass-IsChosen :
        (mp : Mount) (mps : List Mount) (r : Result Error CGroupPath)
        → IsPassedOver mp
        → IsChosen mps r
        → IsChosen (mp ∷ mps) r
    pass-IsChosen mp mps r h (none_usable hs) = none_usable (h, hs)
    pass-IsChosen mp mps r h (first_usable before mp' after d hs u) =
        first_usable (mp ∷ before) mp' after d (h, hs) u

    -- On clean paths `cgPath` gives the directory of the process's path, as `directory_in` has it, on the first
    -- mount that is inside of the cgroup namespace, is of the hierarchy, v2 for hierarchy 0 or with the same
    -- subsystems, and has the path; it fails exactly if there is none. The mount points are not the root.
    pub cg_path-IsChosen : (mps : List Mount) → All IsClean mps → IsChosen mps (cg_path c mps)
    unfolding cg_path
    cg_path-IsChosen [] h = none_usable tt
    cg_path-IsChosen (mp ∷ mps) (h, hs) = elim (verdict mp h) [
      | inl p ↦
          subst (IsChosen (mp ∷ mps)) (sym (cg_path_pass c mp mps (over-IsPassed mp p)))
            (pass-IsChosen mp mps _ p (cg_path-IsChosen mps hs))
      | inr (d, u) ↦
          subst (IsChosen (mp ∷ mps)) (sym (cg_path_used mp mps d u))
            (first_usable [] mp mps d tt u)
    ]
