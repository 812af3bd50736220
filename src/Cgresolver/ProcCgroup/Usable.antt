-- ===== src/Cgresolver/ProcCgroup/Usable.antt =====
-- Which mounts are of a process's hierarchy, in terms of what their rows have.
use mathlib.Core.Bool.{false≢true}
use procstats.Base.{
  ◌≡◌, ◌↔◌, sym, ◌∙◌, ◌⊎◌, inl, inr, true, false, List, [], ◌∷◌, ◌++◌, arith, Bytes, codes,
  equal_iff, Bool-cases,
}
use procstats.Base.Int.{ℤ, pos, negsuc}
use procstats.Cgresolver.Mountinfo.{Mount}
use procstats.Cgresolver.ProcCgroup.{CgProcHierarchy, is_v2_id, equal_lists, is_mount_of}
use procstats.Go.Strings.Prefix.{has_prefix_iff}
use procstats.Go.Strings.{has_prefix}

-- The root of the mount is outside of the cgroup namespace.
abbrev pub IsOutside : Mount → Type 0
IsOutside mp = (rest : Bytes) × (mp.root ≡ codes "/.." ++ rest)

-- The mount is the one of v2 and so is the hierarchy, or both have the same subsystems.
abbrev pub IsOfHierarchy : CgProcHierarchy → Mount → Type 0
IsOfHierarchy c mp =
    ((mp.cgroup_v2 ≡ true) × (c.hierarchy_id ≡ pos 0)) ⊎ (mp.subsystems ≡ c.subsystems)

equal_lists_iff : (a b : List Bytes) → (equal_lists a b ≡ true) ↔ (a ≡ b)
unfolding equal_lists
equal_lists_iff [] [] = ground arith
equal_lists_iff [] (y ∷ b) = ground arith
equal_lists_iff (x ∷ a) [] = ground arith
equal_lists_iff (x ∷ a) (y ∷ b) = ground (arith, equal_iff x y, equal_lists_iff a b)

is_v2_id_iff : (z : ℤ) → (is_v2_id z ≡ true) ↔ (z ≡ pos 0)
is_v2_id_iff (pos n) = ground arith
is_v2_id_iff (negsuc n) = ground arith

-- The test of `cgPath` on a mount.
pub is_mount_of_iff :
    (c : CgProcHierarchy) (mp : Mount)
    → (is_mount_of c mp ≡ true) ↔ (¬ IsOutside mp × IsOfHierarchy c mp)
unfolding is_mount_of
is_mount_of_iff c mp = ground (
  arith,
  has_prefix_iff (codes "/..") mp.root,
  is_v2_id_iff c.hierarchy_id,
  equal_lists_iff mp.subsystems c.subsystems,
)

pub is_mount_of_refused :
    (c : CgProcHierarchy) (mp : Mount)
    → is_mount_of c mp ≡ false
    → IsOutside mp ⊎ ¬ IsOfHierarchy c mp
is_mount_of_refused c mp f = elim (Bool-cases (has_prefix (codes "/..") mp.root)) [
  | inl t ↦ inl ((has_prefix_iff (codes "/..") mp.root).0 t)
  | inr n ↦
      let inside : ¬ IsOutside mp =
        λ o. false≢true (sym n ∙ (has_prefix_iff (codes "/..") mp.root).1 o) in
      inr (λ h. false≢true (sym f ∙ (is_mount_of_iff c mp).1 (inside, h)))
]
