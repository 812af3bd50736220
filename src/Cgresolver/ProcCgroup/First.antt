-- ===== src/Cgresolver/ProcCgroup/First.antt =====
-- `cgPath` of cgresolver/proc_cgroup.go: which of the mounts it uses.
use procstats.Base.{
  ◌≡◌, refl, ap, ◌∙◌, true, false, List, [], ◌∷◌, ◌++◌, none, some, Bytes, All, ◌⊎◌, inl, inr,
  Bool-cases, ok,
}
use procstats.Cgresolver.CgPath.{CGroupPath}
use procstats.Cgresolver.Mountinfo.{Mount}
use procstats.Cgresolver.ProcCgroup.Mounted.{in_mount, mounted_path-below}
use procstats.Cgresolver.ProcCgroup.{CgProcHierarchy, mounted_path, is_mount_of, cg_path}
use procstats.Go.Paths.Clean.{IsElement, rooted}

-- A mount that is not used: not one of the hierarchy, or without the process's directory.
abbrev pub IsPassed : CgProcHierarchy → Mount → Type 0
IsPassed c mp = (is_mount_of c mp ≡ false) ⊎ (mounted_path mp c.path ≡ none)

pub cg_path_pass :
    (c : CgProcHierarchy) (mp : Mount) (mps : List Mount)
    → IsPassed c mp
    → cg_path c (mp ∷ mps) ≡ cg_path c mps
unfolding cg_path
cg_path_pass c mp mps (inl h) = rw (h, cg_path) refl
cg_path_pass c mp mps (inr h) = elim (Bool-cases (is_mount_of c mp)) [
  | inl t ↦ rw (t, h, cg_path) refl
  | inr f ↦ rw (f, cg_path) refl
]

pub cg_path_use :
    (c : CgProcHierarchy) (mp : Mount) (mps : List Mount) (p : CGroupPath)
    → is_mount_of c mp ≡ true
    → mounted_path mp c.path ≡ some p
    → cg_path c (mp ∷ mps) ≡ ok p
unfolding cg_path
cg_path_use c mp mps p t h = rw (t, h, cg_path) refl

-- A process's cgroup on a mount whose root is above it is the directory of the rest of its path under
-- the mount point, whatever mounts that cannot be used stand before. The paths are clean, and the
-- mount point is not the root.
pub cg_path-rooted :
    (c : CgProcHierarchy) (before : List Mount) (mp : Mount) (after : List Mount) (m : Bytes)
    (ms rs ps : List Bytes)
    → All (IsPassed c) before
    → is_mount_of c mp ≡ true
    → All IsElement (m ∷ ms)
    → All IsElement rs
    → All IsElement ps
    → mp.mountpoint ≡ rooted (m ∷ ms)
    → mp.root ≡ rooted rs
    → c.path ≡ rooted (rs ++ ps)
    → cg_path c (before ++ mp ∷ after) ≡ ok (in_mount mp (rooted ((m ∷ ms) ++ ps)))
cg_path-rooted c [] mp after m ms rs ps hb t hm hr hp em er ec =
    cg_path_use c mp after _ t
      (ap (mounted_path mp) ec ∙ mounted_path-below mp m ms rs ps hm hr hp em er)
cg_path-rooted c (b ∷ before) mp after m ms rs ps (hb, hbs) t hm hr hp em er ec =
    cg_path_pass c b (before ++ mp ∷ after) hb
    ∙ cg_path-rooted c before mp after m ms rs ps hbs t hm hr hp em er ec
