-- ===== src/Cgresolver/CgPath/Walk.antt =====
-- The loop over ancestors visits the directories from the cgroup up to the mount point.
use mathlib.Core.List.{foldl, reverse-append}
use procstats.Base.{
  ℕ, zero, suc, ◌<◌, ◌≡◌, ◌≢◌, refl, sym, ap, ◌∙◌, true, false, List, [], ◌∷◌, ◌++◌, none, some,
  arith, Bytes, codes, equal, equal_iff, equal_refl, append_assoc, ◌≤◌, length, length-append, All,
  Bool-cases, inl, inr, ok,
}
use procstats.Cgresolver.CgPath.{CgMode, CGroupPath, parent, for_ancestors}
use procstats.Go.Strings.{trim_suffix, strip_suffix, strip_prefix, before_last}
use procstats.Go.Strings.Cut.{Lacks}

-- The name of a directory.
abbrev pub IsName : Bytes → Type 0
IsName c = (c ≢ []) × Lacks b'/' c

-- The directory below `m` that the names lead to, the last name first.
abbrev pub directory : Bytes → List Bytes → Bytes
directory m [] = m
directory m (c ∷ cs) = directory m cs ++ b'/' ∷ c

before_last-Lacks : (c : Bytes) → Lacks b'/' c → before_last b'/' c ≡ none
unfolding before_last
before_last-Lacks [] h = refl
before_last-Lacks (x ∷ c) (hx, hc) = rw (before_last-Lacks c hc) (ground arith)

before_last-append : (d c : Bytes) → Lacks b'/' c → before_last b'/' (d ++ b'/' ∷ c) ≡ some d
unfolding before_last
before_last-append [] c h = rw (before_last-Lacks c h)
before_last-append (x ∷ d) c h = rw (before_last-append d c h)

-- A text that ends with another byte keeps its end.
strip_suffix-concat : (s : Bytes) (x : ℕ) → x ≢ b'/' → strip_suffix (codes "/") (s ++ x ∷ []) ≡ none
unfolding strip_suffix
strip_suffix-concat s x h = rw (reverse-append s (x ∷ [])) (unfold strip_prefix in ground arith)

trim_suffix-concat :
    (s : Bytes) (x : ℕ) → x ≢ b'/' → trim_suffix (codes "/") (s ++ x ∷ []) ≡ s ++ x ∷ []
unfolding trim_suffix
trim_suffix-concat s x h = rw (strip_suffix-concat s x h, trim_suffix)

name-concat :
    (x : ℕ) (c : Bytes)
    → Lacks b'/' (x ∷ c)
    → (s : Bytes) × (y : ℕ) × (x ∷ c ≡ s ++ y ∷ []) × (y ≢ b'/')
name-concat x [] (h, _) = ([], x, refl, h)
name-concat x (z ∷ c) (h, hs) = let (s, y, e, n) = name-concat z c hs in (x ∷ s, y, ap (◌∷◌ x) e, n)

pub trim_suffix-directory :
    (m c : Bytes) (cs : List Bytes)
    → IsName c
    → trim_suffix (codes "/") (directory m (c ∷ cs)) ≡ directory m (c ∷ cs)
trim_suffix-directory m [] cs (ne, _) = absurd (ne refl)
trim_suffix-directory m (x ∷ c) cs (_, h) =
    let (s, y, e, n) = name-concat x c h in
    let d = directory m cs in
    let split : d ++ b'/' ∷ x ∷ c ≡ (d ++ b'/' ∷ s) ++ y ∷ [] =
      ap (λ r. d ++ b'/' ∷ r) e ∙ sym (append_assoc d (b'/' ∷ s) (y ∷ [])) in
    rw split (trim_suffix-concat (d ++ b'/' ∷ s) y n)

length-directory : (m : Bytes) (cs : List Bytes) → length m ≤ length (directory m cs)
length-directory m [] = omega arith
length-directory m (c ∷ cs) =
    omega (arith, length-directory m cs, length-append (directory m cs) (b'/' ∷ c))

-- A path is at least as long as the number of its names.
pub names_length : (m : Bytes) (cs : List Bytes) → length cs ≤ length (directory m cs)
names_length m [] = omega arith
names_length m (c ∷ cs) =
    omega (arith, names_length m cs, length-append (directory m cs) (b'/' ∷ c))

directory-ne-mount : (m c : Bytes) (cs : List Bytes) → equal m (directory m (c ∷ cs)) ≡ false
directory-ne-mount m c cs = elim (Bool-cases (equal m (directory m (c ∷ cs)))) [
  | inr e ↦ e
  | inl e ↦ absurd (
      omega (
        arith,
        length-directory m cs,
        length-append (directory m cs) (b'/' ∷ c),
        ap length ((equal_iff m _).0 e),
      ))
]

module _ (m : Bytes) (mode : CgMode) where
  -- The cgroup that the names lead to, below the mount point `m`, written `mnt`.
  abbrev pub at : Bytes → List Bytes → CGroupPath
  at mnt cs = record { abs_path = directory m cs; mount_path = mnt; mode = mode }

  -- The paths that the loop visits from there.
  abbrev pub visited : Bytes → List Bytes → List CGroupPath
  visited mnt [] = at mnt [] ∷ []
  visited mnt (c ∷ cs) = at mnt (c ∷ cs) ∷ visited m cs

-- The mount point `m` may be written with a slash behind it.
module _ (m : Bytes) (bare : trim_suffix (codes "/") m ≡ m) (mode : CgMode) where
  parent-directory :
      (mnt c : Bytes) (cs : List Bytes)
      → trim_suffix (codes "/") mnt ≡ m
      → IsName c
      → parent (at m mode mnt (c ∷ cs)) ≡ some (at m mode m cs, true)
  unfolding parent
  parent-directory mnt c cs e h = rw (
    e,
    trim_suffix-directory m c cs h,
    directory-ne-mount m c cs,
    before_last-append (directory m cs) c h.1,
    e,
  )

  parent-mount :
      (mnt : Bytes)
      → trim_suffix (codes "/") mnt ≡ m
      → parent (at m mode mnt []) ≡ some (at m mode m [], false)
  unfolding parent
  parent-mount mnt e = rw (e, bare, equal_refl m)

  -- From the directory that names lead to below a mount point, none of them empty or with a slash, the loop
  -- reaches no panic and ends after one round for each directory on the way: the cgroup, its ancestors in
  -- order, and the mount point last. The mount point that the names are appended to has no slash at its
  -- end, and there is fuel for more rounds than there are names.
  pub for_ancestors-visited :
      {S : Type 0} (body : CGroupPath → S → S) (fuel : ℕ) (mnt : Bytes) (cs : List Bytes) (s : S)
      → trim_suffix (codes "/") mnt ≡ m
      → All IsName cs
      → length cs < fuel
      → for_ancestors body fuel (at m mode mnt cs) s
        ≡ ok (foldl (λ t p. body p t) s (visited m mode mnt cs))
  unfolding for_ancestors
  for_ancestors-visited body zero mnt cs s e h f = elim f [ ]
  for_ancestors-visited body (suc fuel) mnt [] s e h f = rw (parent-mount mnt e, for_ancestors)
  for_ancestors-visited body (suc fuel) mnt (c ∷ cs) s e (hc, hs) f =
      rw (parent-directory mnt c cs e hc, for_ancestors)
        (for_ancestors-visited body fuel m cs (body (at m mode mnt (c ∷ cs)) s) bare hs
          (omega arith))
