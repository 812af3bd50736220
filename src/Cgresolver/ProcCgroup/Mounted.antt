-- ===== src/Cgresolver/ProcCgroup/Mounted.antt =====
-- `cgPath` of cgresolver/proc_cgroup.go on clean paths: which directory of a mount it gives.
use procstats.Base.{
  ℕ, ◌≡◌, ◌≢◌, refl, sym, ap, ◌∙◌, false, List, [], ◌∷◌, ◌++◌, map, none, some, arith, Bytes, codes,
  All, All-append, append-nil,
}
use procstats.Cgresolver.CgPath.{CGroupPath, cgroup2_mode}
use procstats.Cgresolver.Mountinfo.{Mount}
use procstats.Cgresolver.ProcCgroup.{at_rel, mounted_path}
use procstats.Go.Paths.Clean.{
  IsElement, rooted, join-rooted, join-dot, join-dot_dot, rel_elements-append, rel_elements_apart,
  rel_elements_above, rel-rooted,
}
use procstats.Go.Paths.{join, join_elements, rel, rel_elements, show_rel, up, dot, dot_dot, slash}
use procstats.Go.Strings.{has_prefix, strip_prefix}

pub has_prefix-two :
    (a b : ℕ) (s : Bytes) → (a ∷ b ∷ []) ≢ dot_dot → has_prefix (codes "../") (a ∷ b ∷ s) ≡ false
unfolding has_prefix strip_prefix
has_prefix-two a b s h = ground arith

-- An element does not look like the way up.
has_prefix-element :
    (e : Bytes) (es : List Bytes)
    → IsElement e
    → has_prefix (codes "../") (join_elements (e ∷ es)) ≡ false
unfolding has_prefix
has_prefix-element [] es h = absurd (h.0 refl)
has_prefix-element (a ∷ []) [] h = ground arith
has_prefix-element (a ∷ []) (f ∷ es) h = ground arith
has_prefix-element (a ∷ b ∷ []) [] h = ground arith
has_prefix-element (a ∷ b ∷ []) (f ∷ es) h = has_prefix-two a b (slash (join_elements (f ∷ es))) h.3
has_prefix-element (a ∷ b ∷ c ∷ e) [] h = ground arith
has_prefix-element (a ∷ b ∷ c ∷ e) (f ∷ es) h = ground arith

mounted_path-rel :
    (mp : Mount) (rs ts : List Bytes) (r : Bytes)
    → All IsElement rs
    → All IsElement ts
    → mp.root ≡ rooted rs
    → show_rel (rel_elements rs ts) ≡ some r
    → mounted_path mp (rooted ts) ≡ at_rel mp r
unfolding mounted_path
mounted_path-rel mp rs ts r hr ht er h =
    rw (ap (λ t. rel t (rooted ts)) er ∙ rel-rooted rs ts hr ht ∙ h, mounted_path) refl

-- The directory `j` of a mount.
abbrev pub in_mount : Mount → Bytes → CGroupPath
in_mount mp j = record {
  abs_path = j;
  mount_path = mp.mountpoint;
  mode = cgroup2_mode mp.cgroup_v2;
}

at_rel-join :
    (mp : Mount) (m r j : Bytes)
    → has_prefix (codes "../") r ≡ false
    → mp.mountpoint ≡ m
    → join m r ≡ j
    → at_rel mp r ≡ some (in_mount mp j)
unfolding at_rel
at_rel-join mp m r j h em e = rw h (ap (λ t. some (in_mount mp t)) (ap (λ t. join t r) em ∙ e))

at_rel-up :
    (mp : Mount) (e : Bytes) (es : List Bytes) → at_rel mp (join_elements (dot_dot ∷ e ∷ es)) ≡ none
unfolding at_rel has_prefix strip_prefix
at_rel-up mp e es = refl

has_prefix-dots :
    (has_prefix (codes "../") dot ≡ false) × (has_prefix (codes "../") dot_dot ≡ false)
unfolding has_prefix strip_prefix
has_prefix-dots = (refl, refl)

-- A mount whose root is a directory above the path, or the path itself.
pub mounted_path-below :
    (mp : Mount) (m : Bytes) (ms rs ps : List Bytes)
    → All IsElement (m ∷ ms)
    → All IsElement rs
    → All IsElement ps
    → mp.mountpoint ≡ rooted (m ∷ ms)
    → mp.root ≡ rooted rs
    → mounted_path mp (rooted (rs ++ ps)) ≡ some (in_mount mp (rooted ((m ∷ ms) ++ ps)))
mounted_path-below mp m ms rs [] hm hr hp em er =
    mounted_path-rel mp rs (rs ++ []) dot hr (All-append IsElement rs [] hr hp) er
      (ap show_rel (rel_elements-append rs []))
    ∙ at_rel-join mp _ dot _ has_prefix-dots.0 em
        (join-dot m ms hm ∙ ap rooted (sym (append-nil (m ∷ ms))))
mounted_path-below mp m ms rs (p ∷ ps) hm hr hp em er =
    mounted_path-rel mp rs (rs ++ p ∷ ps) _ hr (All-append IsElement rs (p ∷ ps) hr hp) er
      (ap show_rel (rel_elements-append rs (p ∷ ps)))
    ∙ at_rel-join mp _ _ _ (has_prefix-element p ps hp.0) em (join-rooted m ms p ps hm hp)

mounted_path-up :
    (mp : Mount) (rs ts : List Bytes) (e : Bytes) (es : List Bytes)
    → All IsElement rs
    → All IsElement ts
    → mp.root ≡ rooted rs
    → rel_elements rs ts ≡ some (dot_dot ∷ e ∷ es)
    → mounted_path mp (rooted ts) ≡ none
mounted_path-up mp rs ts e es hr ht er h =
    mounted_path-rel mp rs ts _ hr ht er (ap show_rel h) ∙ at_rel-up mp e es

-- A mount whose root parts from the path is passed over, where both are clean.
pub mounted_path-apart :
    (mp : Mount) (cs rs ts : List Bytes) (b t : Bytes)
    → All IsElement (cs ++ b ∷ rs)
    → All IsElement (cs ++ t ∷ ts)
    → IsElement b
    → t ≢ b
    → mp.root ≡ rooted (cs ++ b ∷ rs)
    → mounted_path mp (rooted (cs ++ t ∷ ts)) ≡ none
mounted_path-apart mp cs [] ts b t hr ht hb n er =
    mounted_path-up mp _ _ t ts hr ht er (rel_elements_apart cs b [] t ts n hb.3)
mounted_path-apart mp cs (r ∷ rs) ts b t hr ht hb n er =
    mounted_path-up mp _ _ dot_dot (up rs (t ∷ ts)) hr ht er
      (rel_elements_apart cs b (r ∷ rs) t ts n hb.3)

-- A mount whose root is two directories or more below the path is passed over, where both are clean.
pub mounted_path-above :
    (mp : Mount) (ts rs : List Bytes) (b c : Bytes)
    → All IsElement (ts ++ b ∷ c ∷ rs)
    → All IsElement ts
    → mp.root ≡ rooted (ts ++ b ∷ c ∷ rs)
    → mounted_path mp (rooted ts) ≡ none
mounted_path-above mp ts rs b c hr ht er =
    mounted_path-up mp _ _ dot_dot (map (λ _. dot_dot) rs) hr ht er
      (rel_elements_above ts b (c ∷ rs))

-- A mount whose root is one directory below the path is taken, and gives the directory that the
-- mount point stands in. The paths are clean, and the mount point is not the root.
pub mounted_path-parent :
    (mp : Mount) (m : Bytes) (ms ns ts : List Bytes) (c b : Bytes)
    → All IsElement (m ∷ ms)
    → m ∷ ms ≡ ns ++ c ∷ []
    → c ≢ dot_dot
    → All IsElement (ts ++ b ∷ [])
    → All IsElement ts
    → mp.mountpoint ≡ rooted (m ∷ ms)
    → mp.root ≡ rooted (ts ++ b ∷ [])
    → mounted_path mp (rooted ts) ≡ some (in_mount mp (rooted ns))
mounted_path-parent mp m ms ns ts c b hm e n hr ht em er =
    mounted_path-rel mp (ts ++ b ∷ []) ts dot_dot hr ht er
      (ap show_rel (rel_elements_above ts b []))
    ∙ at_rel-join mp _ dot_dot _ has_prefix-dots.1 em (join-dot_dot m ms ns c hm e n)
