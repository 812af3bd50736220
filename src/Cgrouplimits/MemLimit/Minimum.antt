-- ===== src/Cgrouplimits/MemLimit/Minimum.antt =====
-- The loop of `GetCgroupMemoryLimit` finds the least limit.
use mathlib.Core.Path.{subst}
use mathlib.Core.List.{foldl, Memᴰ}
use procstats.Base.{
  ◌≡◌, ◌⊎◌, inl, inr, refl, Bool, true, false, List, [], ◌∷◌, none, some, arith, All, Result, ok,
  err,
}
use procstats.Base.Int.{ℤ, pos, ◌≤ℤ◌, ◌<ℤ◌, ltb_ℤ}
use procstats.Cgrouplimits.MemLimit.{
  FileError, Limits, limit_round, max_int64, Error, leaf_failed, found_limit,
}
use procstats.Cgrouplimits.Search.Errors.{IsFailed, first_error}
use procstats.Cgrouplimits.Search.Least.{IsStrict}
use procstats.Cgrouplimits.Search.Limits as Shared
use procstats.Cgrouplimits.Search.Limits.{
  IsLeastOf, none_read, LimitLoop, as_read, after, found-IsLeastOf,
}
use procstats.Cgrouplimits.Search.{Search, search_round}

-- The limit `n` is no larger than that of a file, where the file has a limit.
abbrev pub IsBelow : ℤ → Result FileError ℤ → Type 0
IsBelow n (err e) = Unit
IsBelow n (ok v) = (v ≤ℤ pos 0) ⊎ (n ≤ℤ v)

-- What the loop makes of what it read, from the cgroup outwards.
pub data IsLimitOf (rs : List (Result FileError ℤ)) : Result Error ℤ → Type 0 where
  -- No file can be read: the error is that of the first.
  no_file :
      {e : FileError}
      → All IsFailed rs
      → first_error rs ≡ some e
      → IsLimitOf rs (err (leaf_failed e))
  -- Some file was read: no limit is less than the result, which is one of them unless there is none.
  least :
      {n v : ℤ}
      → Memᴰ (ok v) rs
      → All (IsBelow n) rs
      → (n ≡ max_int64) ⊎ (Memᴰ (ok n) rs × (pos 0 <ℤ n))
      → IsLimitOf rs (ok n)

-- A limit of zero or less is none.
abbrev counts : ℤ → Bool
counts v = ltb_ℤ (pos 0) v

ltb_ℤ-IsStrict : IsStrict ltb_ℤ
ltb_ℤ-IsStrict = record { irrefl = λ a. ground arith; trans = λ a b c h k. ground arith }

abbrev as_search : Limits → Search ℤ (Unit {0}) FileError
as_search l = record {
  min_limit = l.min_limit;
  min_stats = tt;
  all_failed = l.all_failed;
  leaf_cg_read_err = l.leaf_cg_read_err;
}

round_search :
    (r : Result FileError ℤ) (l : Limits)
    → as_search (limit_round r l) ≡ search_round counts (λ v. v) ltb_ℤ (as_read r) (as_search l)
unfolding limit_round search_round
round_search (err e) l = refl
round_search (ok v) l = ground arith

found_failed :
    (l : Limits) (e : FileError)
    → l.all_failed ≡ true
    → l.leaf_cg_read_err ≡ some e
    → found_limit l ≡ err (leaf_failed e)
found_failed l e t x = rw (t, x) refl

found_read : (l : Limits) → l.all_failed ≡ false → found_limit l ≡ ok l.min_limit
found_read l f = rw f refl

abbrev pub start : Limits
start = record { min_limit = max_int64; all_failed = true; leaf_cg_read_err = none }

memory_loop : LimitLoop counts (λ v. v) ltb_ℤ leaf_failed max_int64 Limits
memory_loop = record {
  round = limit_round;
  found = found_limit;
  as_search = as_search;
  start = start;
  start_search = refl;
  round_search = round_search;
  found_failed = found_failed;
  found_read = found_read;
}

abbrev pub rounds : List (Result FileError ℤ) → Limits → Limits
rounds rs l = foldl (λ t r. limit_round r t) l rs

All-IsBelow :
    (n : ℤ) (rs : List (Result FileError ℤ))
    → All (Shared.IsBelow counts (λ v. v) ltb_ℤ leaf_failed max_int64 n) rs
    → All (IsBelow n) rs
All-IsBelow n [] h = tt
All-IsBelow n (err e ∷ rs) (_, h) = (tt, All-IsBelow n rs h)
All-IsBelow n (ok v ∷ rs) (b, h) = (ground arith, All-IsBelow n rs h)

-- The least of the limits that count, in the words of this loop.
least-IsLimitOf :
    (rs : List (Result FileError ℤ)) (x : Result Error ℤ)
    → IsLeastOf counts (λ v. v) ltb_ℤ leaf_failed max_int64 rs x
    → IsLimitOf rs x
least-IsLimitOf rs _ (none_read h e) = no_file h e
least-IsLimitOf rs _ (Shared.least {n} m b (inl e)) = least m (All-IsBelow n rs b) (inl e)
least-IsLimitOf rs _ (Shared.least {n} m b (inr (l, mem, c, e))) =
    least m (All-IsBelow n rs b) (inr (subst (λ z. Memᴰ (ok z) rs) e mem, ground arith))

-- What the loop's variables come to, where it went round at least once.
pub found_limit-IsLimitOf :
    (r : Result FileError ℤ) (rs : List (Result FileError ℤ))
    → IsLimitOf (r ∷ rs) (found_limit (rounds (r ∷ rs) start))
unfolding memory_loop
found_limit-IsLimitOf r rs =
    least-IsLimitOf (r ∷ rs) _
      (found-IsLeastOf counts (λ v. v) ltb_ℤ leaf_failed max_int64 ltb_ℤ-IsStrict memory_loop r rs)
