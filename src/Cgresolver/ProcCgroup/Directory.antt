-- ===== src/Cgresolver/ProcCgroup/Directory.antt =====
-- The directory that a mount gives for a process's path, by the elements of the paths.
use mathlib.Core.List.{drop_last}
use mathlib.Core.Option
use mathlib.Core.Bool.{false≢true}
use mathlib.Core.Path.{subst}
use procstats.Base.{
  ◌≡◌, ◌≢◌, refl, sym, ap, ◌∙◌, Bool-cases, inl, inr, List, [], ◌∷◌, ◌++◌, Option, none, some,
  Bytes, equal, equal_iff, All, All_of_append, append-nil, append_assoc, if◌then◌else◌,
}
use procstats.Cgresolver.Mountinfo.{Mount}
use procstats.Cgresolver.ProcCgroup.Mounted.{
  in_mount, mounted_path-below, mounted_path-apart, mounted_path-above, mounted_path-parent,
}
use procstats.Cgresolver.ProcCgroup.{mounted_path}
use procstats.Go.Paths.Clean.{IsElement, rooted}
use procstats.Go.Paths.{dot_dot}

-- For the mount point, the root of the mount and the path: the rest of the path below the mount point;
-- the directory around the mount point where the root is one directory below the path; else nothing.
abbrev pub directory_in : List Bytes → List Bytes → List Bytes → Option (List Bytes)
directory_in ms [] ts = some (ms ++ ts)
directory_in ms (r ∷ []) [] = some (drop_last ms)
directory_in ms (r ∷ s ∷ rs) [] = none
directory_in ms (r ∷ rs) (t ∷ ts) =
    let rest = directory_in ms rs ts in if equal t r then rest else none

-- The last element stands behind the others.
drop_last_split :
    (m : Bytes) (ms : List Bytes)
    → All IsElement (m ∷ ms)
    → (c : Bytes) × (m ∷ ms ≡ drop_last (m ∷ ms) ++ c ∷ []) × (c ≢ dot_dot)
drop_last_split m [] h = (m, refl, h.0.3)
drop_last_split m (n ∷ ms) h = let (c, e, d) = drop_last_split n ms h.1 in (c, ap (λ t. m ∷ t) e, d)

module _ (mp : Mount) (m : Bytes) (ms : List Bytes) (hm : All IsElement (m ∷ ms))
    (em : mp.mountpoint ≡ rooted (m ∷ ms)) where
  -- The same behind a common prefix of root and path.
  mounted_path-behind :
      (cs rs ts : List Bytes)
      → All IsElement (cs ++ rs)
      → All IsElement (cs ++ ts)
      → mp.root ≡ rooted (cs ++ rs)
      → mounted_path mp (rooted (cs ++ ts))
        ≡ Option.map (λ d. in_mount mp (rooted d)) (directory_in (m ∷ ms) rs ts)
  mounted_path-behind cs [] ts hr ht er =
      mounted_path-below mp m ms cs ts hm (All_of_append IsElement cs [] hr).0
        (All_of_append IsElement cs ts ht).1 em (er ∙ ap rooted (append-nil cs))
  mounted_path-behind cs (b ∷ []) [] hr ht er =
      let (c, e, d) = drop_last_split m ms hm in
      ap (λ t. mounted_path mp (rooted t)) (append-nil cs)
      ∙ mounted_path-parent mp m ms (drop_last (m ∷ ms)) cs c b hm e d hr
          (All_of_append IsElement cs [] ht).0 em er
  mounted_path-behind cs (b ∷ c ∷ rs) [] hr ht er =
      ap (λ t. mounted_path mp (rooted t)) (append-nil cs)
      ∙ mounted_path-above mp cs rs b c hr (All_of_append IsElement cs [] ht).0 er
  mounted_path-behind cs (b ∷ rs) (t ∷ ts) hr ht er = elim (Bool-cases (equal t b)) [
    | inl e ↦
        let moved_root : cs ++ b ∷ rs ≡ (cs ++ b ∷ []) ++ rs = sym (append_assoc cs (b ∷ []) rs) in
        let moved_path : cs ++ t ∷ ts ≡ (cs ++ b ∷ []) ++ ts =
          ap (λ x. cs ++ x ∷ ts) ((equal_iff t b).0 e) ∙ sym (append_assoc cs (b ∷ []) ts) in
        ap (λ p. mounted_path mp (rooted p)) moved_path
        ∙ mounted_path-behind (cs ++ b ∷ []) rs ts (subst (All IsElement) moved_root hr)
            (subst (All IsElement) moved_path ht) (er ∙ ap rooted moved_root)
        ∙ rw e refl
    | inr n ↦
        mounted_path-apart mp cs rs ts b t hr ht (All_of_append IsElement cs (b ∷ rs) hr).1.0
          (λ e. false≢true (sym n ∙ (equal_iff t b).1 e)) er
        ∙ rw n refl
  ]

  -- On clean paths a mount gives what `directory_in` says of their elements; the mount point is not the
  -- root.
  pub mounted_path-directory_in :
      (rs ts : List Bytes)
      → All IsElement rs
      → All IsElement ts
      → mp.root ≡ rooted rs
      → mounted_path mp (rooted ts)
        ≡ Option.map (λ d. in_mount mp (rooted d)) (directory_in (m ∷ ms) rs ts)
  mounted_path-directory_in rs ts hr ht er = mounted_path-behind [] rs ts hr ht er
