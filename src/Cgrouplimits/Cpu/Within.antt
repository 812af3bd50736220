-- ===== src/Cgrouplimits/Cpu/Within.antt =====
-- `CPU` on Linux: it gives no more CPUs than any limit on the way from the process's cgroup outwards.
use mathlib.Core.Path.{subst}
use mathlib.Core.Bool.{false≢true}
use mathlib.Core.List.{Memᴰ}
use procstats.Base.{
  sym, ◌∙◌, ℕ, ◌≡◌, ◌⊎◌, inl, inr, refl, true, false, List, [], ◌∷◌, arith, Bytes, codes, All,
  All-Mem, Result, ok, err, map_err,
}
use procstats.Base.Int.{pos}
use procstats.Cgresolver.CgPath.Walk.{IsName, at, visited}
use procstats.Cgresolver.CgPath.{CgMode}
use procstats.Cgresolver.ProcCgroup.Resolve.{self_subsystem_path}
use procstats.Cgrouplimits.Cpu.Bounds.{IsCpus, cpu-IsCpus}
use procstats.Cgrouplimits.Cpu.{le, choose_limit, cpu}
use procstats.Cgrouplimits.CpuLimit.Least.{cpu_limits, get_cgroup_cpu_limit-IsLimitOf}
use procstats.Cgrouplimits.CpuLimit.Minimum.{counts, IsLimitOf}
use procstats.Cgrouplimits.CpuLimit.{SingleError, Error, leaf_failed, get_cgroup_cpu_limit}
use procstats.Cgrouplimits.Platform.{linux, cpu_limit_failed}
use procstats.Cgrouplimits.Search.Errors.{IsFailed}
use procstats.Cgrouplimits.Search.Least.{IsStrict}
use procstats.Cgrouplimits.Search.Limits
use procstats.Cgrouplimits.Search.Limits.{none_read, least}
use procstats.Go.Files.{FileSystem}
use procstats.Go.Float.{Float64}
use procstats.Go.Strings.{trim_suffix}

module _ (fl : Float64) (strict : IsStrict fl.lt) where
  open fl use {Carrier, of_int, lt, inf}

  abbrev Read : Type 0
  Read = Result SingleError Carrier

  -- A limit that cannot be read or is none, or one that is not less than `n`.
  abbrev pub IsWithin : Carrier → Read → Type 0
  IsWithin n (err e) = Unit
  IsWithin n (ok v) = (counts fl v ≡ false) ⊎ (lt v n ≡ false)

  -- A limit that counts is positive.
  abbrev pub IsPositive : Read → Type 0
  IsPositive (err e) = Unit
  IsPositive (ok v) = (counts fl v ≡ false) ⊎ (le fl v (of_int (pos 0)) ≡ false)

  IsFailed-IsWithin : (n : Carrier) (rs : List Read) → All IsFailed rs → All (IsWithin n) rs
  IsFailed-IsWithin n [] h = tt
  IsFailed-IsWithin n (err e ∷ rs) (_, h) = (tt, IsFailed-IsWithin n rs h)
  IsFailed-IsWithin n (ok v ∷ rs) (h, _) = absurd h

  -- What is not above a limit, nor the least of the limits, is chosen.
  choice-IsWithin :
      (most v : Carrier) (r : Read)
      → le fl v (of_int (pos 0)) ≡ false
      → Limits.IsBelow (counts fl) (λ v. v) lt leaf_failed inf v r
      → IsWithin (choose_limit fl {E = Error} most (ok v)) r
  unfolding choose_limit
  choice-IsWithin most v (err e) p b = tt
  choice-IsWithin most v (ok w) p (inl b) = inl b
  choice-IsWithin most v (ok w) p (inr b) = inr (ground (arith, strict.trans w most v))

  choices-IsWithin :
      (most v : Carrier) (rs : List Read)
      → le fl v (of_int (pos 0)) ≡ false
      → All (Limits.IsBelow (counts fl) (λ v. v) lt leaf_failed inf v) rs
      → All (IsWithin (choose_limit fl {E = Error} most (ok v))) rs
  choices-IsWithin most v [] p b = tt
  choices-IsWithin most v (r ∷ rs) p (b, bs) =
      (choice-IsWithin most v r p b, choices-IsWithin most v rs p bs)

  -- The least limit is positive too.
  kept_positive :
      (n : Carrier) (rs : List Read)
      → le fl inf (of_int (pos 0)) ≡ false
      → All IsPositive rs
      → (n ≡ inf) ⊎ ((l : Carrier) × Memᴰ (ok l) rs × (counts fl l ≡ true) × (l ≡ n))
      → le fl n (of_int (pos 0)) ≡ false
  kept_positive n rs i h (inl e) = subst (λ x. le fl x (of_int (pos 0)) ≡ false) (sym e) i
  kept_positive n rs i h (inr (l, m, c, e)) = elim (All-Mem IsPositive rs (ok l) m h) [
    | inl f ↦ absurd (false≢true (sym f ∙ c))
    | inr p ↦ subst (λ x. le fl x (of_int (pos 0)) ≡ false) e p
  ]

  limit-IsWithin :
      (most : Carrier) (rs : List Read) (x : Result Error Carrier)
      → le fl inf (of_int (pos 0)) ≡ false
      → All IsPositive rs
      → IsLimitOf fl rs x
      → All (IsWithin (choose_limit fl most x)) rs
  unfolding choose_limit
  limit-IsWithin most rs _ i h (none_read f _) = IsFailed-IsWithin most rs f
  limit-IsWithin most rs _ i h (least {n} _ b k) =
      choices-IsWithin most n rs (kept_positive n rs i h k) b

  choose_limit-map_err :
      {E F : Type 0} (f : E → F) (most : Carrier) (x : Result E Carrier)
      → choose_limit fl most (map_err f x) ≡ choose_limit fl most x
  unfolding choose_limit
  choose_limit-map_err f most (ok v) = refl
  choose_limit-map_err f most (err e) = refl

  module _ (files : FileSystem) (m : Bytes) (bare : trim_suffix (codes "/") m ≡ m)
      (mode : CgMode) where
    -- Where the process's cpu cgroup lies below a mount point and the limits on the way out are positive,
    -- `CPU` gives a positive number that neither the CPUs of the process nor any limit on the way is less
    -- than. The order of float64 is irreflexive and transitive, infinity is positive, the process has a
    -- CPU, and 0 and -1 are no limits.
    pub cpu-IsWithin :
        (num_cpu : ℕ) (mnt : Bytes) (cs : List Bytes)
        → le fl (of_int (pos num_cpu)) (of_int (pos 0)) ≡ false
        → le fl inf (of_int (pos 0)) ≡ false
        → trim_suffix (codes "/") mnt ≡ m
        → All IsName cs
        → self_subsystem_path files (codes "cpu") ≡ ok (at m mode mnt cs)
        → All IsPositive (cpu_limits fl files (visited m mode mnt cs))
        → IsCpus fl strict.irrefl (of_int (pos num_cpu)) (cpu fl num_cpu (linux fl files))
          × All
              (IsWithin (cpu fl num_cpu (linux fl files)))
              (cpu_limits fl files (visited m mode mnt cs))
    unfolding cpu
    cpu-IsWithin num_cpu mnt cs c i e h r p = (
      cpu-IsCpus fl strict.irrefl num_cpu (linux fl files) c,
      rw
          (choose_limit-map_err cpu_limit_failed (of_int (pos num_cpu))
            (get_cgroup_cpu_limit fl files))
          (limit-IsWithin (of_int (pos num_cpu)) (cpu_limits fl files (visited m mode mnt cs)) _ i p
            (get_cgroup_cpu_limit-IsLimitOf fl files strict m bare mode mnt cs e h r)),
    )
