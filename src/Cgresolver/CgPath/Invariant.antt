-- ===== src/Cgresolver/CgPath/Invariant.antt =====
-- What every round of the loop over a cgroup and its ancestors keeps holds where the loop ends.
use procstats.Base.{
  ℕ, zero, suc, Bool, true, false, Option, none, some, Result, ok, err, Satisfies, holds, fails,
}
use procstats.Cgresolver.CgPath.{CGroupPath, Stop, panic, parent, for_ancestors}

module _ {S : Type 0} (Holds : S → Type 0) (body : CGroupPath → S → S)
    (keeps : (p : CGroupPath) (s : S) → Holds s → Holds (body p s)) where
  -- How the loop goes on, where its later rounds keep what holds.
  go_up :
      (o : Option (CGroupPath × Bool)) (path : CGroupPath) (s : S)
      (later : CGroupPath → S → Result Stop S)
      → Holds s
      → ((p : CGroupPath) (t : S) → Holds t → Satisfies Holds (later p t))
      → Satisfies Holds (elim o [
        | none ↦ err panic
        | some (up, true) ↦ later up (body path s)
        | some (up, false) ↦ ok (body path s)
      ])
  go_up none path s later h rest = fails
  go_up (some (up, true)) path s later h rest = rest up (body path s) (keeps path s h)
  go_up (some (up, false)) path s later h rest = holds (keeps path s h)

  pub for_ancestors-Satisfies :
      (fuel : ℕ) (path : CGroupPath) (s : S)
      → Holds s
      → Satisfies Holds (for_ancestors body fuel path s)
  unfolding for_ancestors
  for_ancestors-Satisfies zero path s h = fails
  for_ancestors-Satisfies (suc fuel) path s h =
      go_up (parent path) path s (for_ancestors body fuel) h (for_ancestors-Satisfies fuel)
