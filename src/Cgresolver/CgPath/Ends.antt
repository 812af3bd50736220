-- ===== src/Cgresolver/CgPath/Ends.antt =====
-- `Parent` shortens the path, so that the loop over a cgroup and its ancestors always ends.
use mathlib.Core.List.{reverse-append}
use mathlib.Core.Option
use procstats.Base.{
  ℕ, zero, suc, ◌≤◌, ◌<◌, ◌≡◌, ◌≢◌, refl, ap, ◌∙◌, Bool, true, false, [], ◌∷◌, reverse, Option,
  none, some, arith, Bytes, codes, equal, length, Result, ok, err, ◌==◌, if◌then◌else◌,
  length-append,
}
use procstats.Cgresolver.CgPath.{CGroupPath, Stop, panic, out_of_fuel, parent, for_ancestors}
use procstats.Go.Strings.{strip_prefix, strip_suffix, trim_suffix, before_last}

length-reverse : (s : Bytes) → length (reverse s) ≡ length s
length-reverse [] = refl
length-reverse (c ∷ s) =
    ap length (reverse-append (c ∷ []) s)
    ∙ omega (arith, length-append (reverse s) (c ∷ []), length-reverse s)

-- What is left of a text is not longer, where something is left.
abbrev NotLonger : Bytes → Option Bytes → Type 0
NotLonger s none = Unit
NotLonger s (some r) = length r ≤ length s

strip_prefix-NotLonger : (p s : Bytes) → NotLonger s (strip_prefix p s)
unfolding strip_prefix
strip_prefix-NotLonger [] s = omega arith
strip_prefix-NotLonger (x ∷ p) [] = tt
strip_prefix-NotLonger (x ∷ p) (c ∷ s) =
    if_equal (x == c) (strip_prefix p s) (strip_prefix-NotLonger p s)
  where
    if_equal :
        (b : Bool) (o : Option Bytes) → NotLonger s o → NotLonger (c ∷ s) (if b then o else none)
    if_equal false o h = tt
    if_equal true none h = tt
    if_equal true (some r) h = omega arith

trim_suffix-length : (p s : Bytes) → length (trim_suffix p s) ≤ length s
unfolding trim_suffix strip_suffix
trim_suffix-length p s =
    of_stripped (strip_prefix (reverse p) (reverse s))
      (strip_prefix-NotLonger (reverse p) (reverse s))
  where
    of_stripped :
        (o : Option Bytes)
        → NotLonger (reverse s) o
        → length (elim (Option.map reverse o) as (λ x. Bytes) [ none ↦ s | some r ↦ r ]) ≤ length s
    of_stripped none h = omega arith
    of_stripped (some r) h = omega (arith, length-reverse r, length-reverse s)

abbrev Shorter : Bytes → Option Bytes → Type 0
Shorter s none = Unit
Shorter s (some r) = length r < length s

before_last-Shorter : (k : ℕ) (s : Bytes) → Shorter s (before_last k s)
unfolding before_last
before_last-Shorter k [] = tt
before_last-Shorter k (c ∷ s) = of_later (before_last k s) (before_last-Shorter k s)
  where
    of_first : (b : Bool) → Shorter (c ∷ s) (if b then some [] else none)
    of_first true = omega arith
    of_first false = tt

    of_later :
        (o : Option Bytes)
        → Shorter s o
        → Shorter (c ∷ s) (elim o as (λ x. Option Bytes) [
          | some b ↦ some (c ∷ b)
          | none ↦ if c == k then some [] else none
        ])
    of_later none h = of_first (c == k)
    of_later (some b) h = omega arith

-- The loop goes on only with a shorter path.
abbrev GoesUp : CGroupPath → Option (CGroupPath × Bool) → Type 0
GoesUp c none = Unit
GoesUp c (some (up, false)) = Unit
GoesUp c (some (up, true)) = length up.abs_path < length c.abs_path

parent-GoesUp : (c : CGroupPath) → GoesUp c (parent c)
unfolding parent
parent-GoesUp c = of_test (equal mnt path)
  where
    path : Bytes
    path = trim_suffix (codes "/") c.abs_path

    mnt : Bytes
    mnt = trim_suffix (codes "/") c.mount_path

    of_dir :
        (o : Option Bytes)
        → Shorter path o
        → GoesUp c (elim o as (λ x. Option (CGroupPath × Bool)) [
          | none ↦ none
          | some dir ↦ some (record { abs_path = dir; mount_path = mnt; mode = c.mode }, true)
        ])
    of_dir none h = tt
    of_dir (some dir) h = omega (arith, trim_suffix-length (codes "/") c.abs_path)

    of_test :
        (b : Bool)
        → GoesUp c (
            if b
            then some (record { abs_path = path; mount_path = mnt; mode = c.mode }, false)
            else (elim (before_last b'/' path) as (λ x. Option (CGroupPath × Bool)) [
              | none ↦ none
              | some dir ↦ some (record { abs_path = dir; mount_path = mnt; mode = c.mode }, true)
            ]))
    of_test true = tt
    of_test false = of_dir (before_last b'/' path) (before_last-Shorter b'/' path)

module _ {S : Type 0} (body : CGroupPath → S → S) where
  go_up :
      (o : Option (CGroupPath × Bool)) (path : CGroupPath) (s : S) (fuel : ℕ)
      → GoesUp path o
      → length path.abs_path < suc fuel
      → ((p : CGroupPath) (t : S)
          → length p.abs_path < fuel
          → for_ancestors body fuel p t ≢ err out_of_fuel)
      → (elim o as (λ x. Result Stop S) [
        | none ↦ err panic
        | some (up, true) ↦ for_ancestors body fuel up (body path s)
        | some (up, false) ↦ ok (body path s)
      ])
        ≢ err out_of_fuel
  go_up none path s fuel g h later = λ e. cc
  go_up (some (up, true)) path s fuel g h later = later up (body path s) (omega arith)
  go_up (some (up, false)) path s fuel g h later = λ e. cc

  -- The loop over a cgroup and its ancestors ends within as many rounds as the path has bytes, and one
  -- more, whatever the path and the mount point are.
  pub for_ancestors_ends :
      (fuel : ℕ) (path : CGroupPath) (s : S)
      → length path.abs_path < fuel
      → for_ancestors body fuel path s ≢ err out_of_fuel
  unfolding for_ancestors
  for_ancestors_ends zero path s h = absurd (omega arith)
  for_ancestors_ends (suc fuel) path s h =
      go_up (parent path) path s fuel (parent-GoesUp path) h (for_ancestors_ends fuel)
