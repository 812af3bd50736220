-- ===== src/Cgresolver/ProcCgroup/Ancestors.antt =====
-- The loop over ancestors from the path that `cgPath` of cgresolver/proc_cgroup.go gives.
use mathlib.Core.List.{foldl, reverse-append, reverse-reverse}
use mathlib.Core.Path.{subst}
use procstats.Base.{
  All-reverse, ℕ, ◌<◌, ◌≡◌, sym, ap, ◌∙◌, true, List, [], ◌∷◌, ◌++◌, reverse, Bytes, codes, All,
  append_assoc, append-nil, length, ok,
}
use procstats.Cgresolver.CgPath.Walk.{
  IsName, directory, at, visited, trim_suffix-directory, for_ancestors-visited,
}
use procstats.Cgresolver.CgPath.{CGroupPath, cgroup2_mode, for_ancestors}
use procstats.Cgresolver.Mountinfo.{Mount}
use procstats.Cgresolver.ProcCgroup.First.{IsPassed, cg_path-rooted}
use procstats.Cgresolver.ProcCgroup.Mounted.{in_mount}
use procstats.Cgresolver.ProcCgroup.{CgProcHierarchy, is_mount_of, cg_path}
use procstats.Go.Paths.Clean.{IsElement, rooted, rooted-append}
use procstats.Go.Strings.{trim_suffix}

-- The path below a rooted directory is that of all elements.
directory-rooted :
    (m : Bytes) (ms cs : List Bytes)
    → directory (rooted (m ∷ ms)) cs ≡ rooted ((m ∷ ms) ++ reverse cs)
directory-rooted m ms [] = ap rooted (sym (append-nil (m ∷ ms)))
directory-rooted m ms (c ∷ cs) =
    ap (λ d. d ++ b'/' ∷ c) (directory-rooted m ms cs)
    ∙ rooted-append m (ms ++ reverse cs) [] c
    ∙ ap rooted (
        append_assoc (m ∷ ms) (reverse cs) (c ∷ [])
        ∙ ap (λ l. (m ∷ ms) ++ l) (sym (reverse-append (c ∷ []) cs)))

IsElement-IsName : (e : Bytes) → IsElement e → IsName e
IsElement-IsName e (n, l, _, _) = (n, l)

elements-IsName : (es : List Bytes) → All IsElement es → All IsName es
elements-IsName [] h = tt
elements-IsName (e ∷ es) (he, hs) = (IsElement-IsName e he, elements-IsName es hs)

pub reverse-IsName : (es : List Bytes) → All IsElement es → All IsName (reverse es)
reverse-IsName es h = All-reverse IsName es (elements-IsName es h)

trim_suffix-names :
    (m : Bytes) (cs : List Bytes)
    → IsName m
    → All IsName cs
    → trim_suffix (codes "/") (directory (rooted (m ∷ [])) cs) ≡ directory (rooted (m ∷ [])) cs
trim_suffix-names m [] h hs = trim_suffix-directory [] m [] h
trim_suffix-names m (c ∷ cs) h (hc, _) = trim_suffix-directory (rooted (m ∷ [])) c cs hc

-- A path of elements has no slash at its end.
pub trim_suffix-rooted :
    (m : Bytes) (ms : List Bytes)
    → All IsElement (m ∷ ms)
    → trim_suffix (codes "/") (rooted (m ∷ ms)) ≡ rooted (m ∷ ms)
trim_suffix-rooted m ms (hm, hs) =
    let same : directory (rooted (m ∷ [])) (reverse ms) ≡ rooted (m ∷ ms) =
      directory-rooted m [] (reverse ms) ∙ ap (λ l. rooted (m ∷ l)) (reverse-reverse ms) in
    subst (λ p. trim_suffix (codes "/") p ≡ p) same
      (trim_suffix-names m (reverse ms) (IsElement-IsName m hm) (reverse-IsName ms hs))

-- The directory in a mount as the loop over ancestors sees it.
pub in_mount-at :
    (mp : Mount) (m : Bytes) (ms ps : List Bytes)
    → mp.mountpoint ≡ rooted (m ∷ ms)
    → in_mount mp (rooted ((m ∷ ms) ++ ps))
      ≡ at (rooted (m ∷ ms)) (cgroup2_mode mp.cgroup_v2) (rooted (m ∷ ms)) (reverse ps)
in_mount-at mp m ms ps em =
    ap
      (λ t. record {
        abs_path = rooted ((m ∷ ms) ++ ps);
        mount_path = t;
        mode = cgroup2_mode mp.cgroup_v2;
      })
      em
    ∙ ap
        (λ t. record {
          abs_path = t;
          mount_path = rooted (m ∷ ms);
          mode = cgroup2_mode mp.cgroup_v2;
        })
        (ap (λ l. rooted ((m ∷ ms) ++ l)) (sym (reverse-reverse ps))
          ∙ sym (directory-rooted m ms (reverse ps)))

-- From the path that `cgPath` gives for a process's cgroup, the loop over ancestors visits the cgroup,
-- its ancestors in order and the mount point, and ends without panic. The mount's root is above the
-- cgroup, the paths are clean, the mount point is not the root, and the fuel exceeds the way.
pub for_ancestors-cg_path :
    {S : Type 0} (body : CGroupPath → S → S) (fuel : ℕ) (start : S) (c : CgProcHierarchy)
    (before : List Mount) (mp : Mount) (after : List Mount) (m : Bytes) (ms rs ps : List Bytes)
    → All (IsPassed c) before
    → is_mount_of c mp ≡ true
    → All IsElement (m ∷ ms)
    → All IsElement rs
    → All IsElement ps
    → mp.mountpoint ≡ rooted (m ∷ ms)
    → mp.root ≡ rooted rs
    → c.path ≡ rooted (rs ++ ps)
    → length (reverse ps) < fuel
    → (p : CGroupPath) × (cg_path c (before ++ mp ∷ after) ≡ ok p)
      × (for_ancestors body fuel p start
          ≡ ok (
              foldl
                (λ t q. body q t)
                start
                (visited
                  (rooted (m ∷ ms))
                  (cgroup2_mode mp.cgroup_v2)
                  (rooted (m ∷ ms))
                  (reverse ps))))
for_ancestors-cg_path body fuel start c before mp after m ms rs ps hb t hm hr hp em er ec f =
    let bare = trim_suffix-rooted m ms hm in
    (
      at (rooted (m ∷ ms)) (cgroup2_mode mp.cgroup_v2) (rooted (m ∷ ms)) (reverse ps),
      cg_path-rooted c before mp after m ms rs ps hb t hm hr hp em er ec
          ∙ ap ok (in_mount-at mp m ms ps em),
      for_ancestors-visited (rooted (m ∷ ms)) bare (cgroup2_mode mp.cgroup_v2) body fuel
          (rooted (m ∷ ms)) (reverse ps) start bare (reverse-IsName ps hp) f,
    )
