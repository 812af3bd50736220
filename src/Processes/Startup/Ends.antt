-- ===== src/Processes/Startup/Ends.antt =====
-- The goroutine that `init` of proc_stats_linux.go starts: it ends, and never reads through a nil pointer.
use procstats.Base.{
  ℕ, zero, suc, ◌+◌, ◌≤◌, ◌<◌, ◌≡◌, ◌≢◌, ◌⊎◌, inl, inr, refl, ap, ◌∙◌, Bool, true, false, Option,
  none, some, arith, ltb, ◌==◌, Bool-cases, Option-cases,
}
use procstats.Go.Files.{FileSystem}
use procstats.Processes.CpuTime.{CpuTime, eq}
use procstats.Processes.Startup.{
  self_time, ended, nil_pointer, no_time, goes_on, check_rounds, startup,
}

-- Where the test reads `ct`, something was stored there.
abbrev IsStored : ℕ → Option CpuTime → Type 0
IsStored i ct = (i < 30) ⊎ ((t : CpuTime) × (ct ≡ some t))

goes_on-early : (i : ℕ) (ct : Option CpuTime) → i < 30 → goes_on i ct ≡ some true
unfolding goes_on
goes_on-early i ct h = ground arith

goes_on-late : (i : ℕ) (t : CpuTime) → 30 ≤ i → goes_on i (some t) ≡ some (eq t no_time)
unfolding goes_on
goes_on-late i t h = ground arith

goes_on_stored :
    (i : ℕ) (ct : Option CpuTime) → IsStored i ct → (b : Bool) × (goes_on i ct ≡ some b)
goes_on_stored i ct (inl h) = (true, goes_on-early i ct h)
goes_on_stored i ct (inr (t, e)) = elim (Bool-cases (ltb i 30)) [
  | inl h ↦ (true, goes_on-early i ct (ground arith))
  | inr h ↦ (eq t no_time, ap (goes_on i) e ∙ goes_on-late i t (ground arith))
]

module _ (at : ℕ → Option CpuTime) where
  rounds_safe :
      (fuel i : ℕ) (ct : Option CpuTime) → IsStored i ct → check_rounds at fuel i ct ≢ nil_pointer
  unfolding check_rounds
  rounds_safe zero i ct h = λ e. cc
  rounds_safe (suc fuel) i ct h =
      let (b, e) = goes_on_stored i ct h in
      round b e (Option-cases (at i)) (λ r. rounds_safe fuel (suc i) (some r) (inr (r, refl)))
    where
      round :
          (b : Bool)
          → goes_on i ct ≡ some b
          → (at i ≡ none) ⊎ ((r : CpuTime) × (at i ≡ some r))
          → ((r : CpuTime) → check_rounds at fuel (suc i) (some r) ≢ nil_pointer)
          → check_rounds at (suc fuel) i ct ≢ nil_pointer
      round false e o later = rw (e, check_rounds) (λ q. cc)
      round true e (inl n) later = rw (e, check_rounds, n) (λ q. cc)
      round true e (inr (r, n)) later = rw (e, check_rounds, n) (later r)

-- What stands in `ct` before round `i`.
abbrev before : (ℕ → CpuTime) → ℕ → Option CpuTime
before times zero = none
before times (suc i) = some (times i)

module _ (at : ℕ → Option CpuTime) (times : ℕ → CpuTime) (reads : (i : ℕ) → at i ≡ some (times i))
    (k : ℕ) (late : 29 ≤ k) (shown : eq (times k) no_time ≡ false) where
  abbrev EndsFrom : ℕ → ℕ → Type 0
  EndsFrom fuel i =
      (n : ℕ) × (check_rounds at fuel i (before times i) ≡ ended n) × (30 ≤ n) × (n ≤ suc k)

  round_on :
      (fuel i : ℕ) (ct : Option CpuTime)
      → goes_on i ct ≡ some true
      → check_rounds at (suc fuel) i ct ≡ check_rounds at fuel (suc i) (some (times i))
  unfolding check_rounds
  round_on fuel i ct e = rw (e, check_rounds, reads i) refl

  round_ends :
      (fuel i : ℕ) (ct : Option CpuTime)
      → goes_on i ct ≡ some false
      → check_rounds at (suc fuel) i ct ≡ ended i
  unfolding check_rounds
  round_ends fuel i ct e = rw (e, check_rounds) refl

  later_EndsFrom :
      (fuel i : ℕ)
      → goes_on i (before times i) ≡ some true
      → EndsFrom fuel (suc i)
      → EndsFrom (suc fuel) i
  later_EndsFrom fuel i e (n, q, l, h) = (n, round_on fuel i (before times i) e ∙ q, l, h)

  -- Behind the thirtieth round, the time that was read last is shown, or the loop goes on.
  late_round :
      (fuel j : ℕ)
      → suc j ≤ suc k
      → 30 ≤ suc j
      → (suc (suc j) ≤ suc k → EndsFrom fuel (suc (suc j)))
      → EndsFrom (suc fuel) (suc j)
  late_round fuel j h l later = elim (Bool-cases (eq (times j) no_time)) [
    | inr e ↦ (
      suc j,
      round_ends fuel (suc j) (some (times j)) (goes_on-late (suc j) (times j) l ∙ ap some e),
      l,
      h,
    )
    | inl e ↦ later_EndsFrom fuel (suc j) (goes_on-late (suc j) (times j) l ∙ ap some e) (
        later (elim (Bool-cases (j == k)) [
          | inl q ↦ absurd (shown_differs e (ground arith))
          | inr q ↦ ground arith
        ]))
  ]
    where
      shown_differs : eq (times j) no_time ≡ true → j ≡ k → ⊥
      shown_differs e q = absurd (ground (arith, ap (λ i. eq (times i) no_time) q, shown))

  rounds_end : (fuel i : ℕ) → i ≤ suc k → suc k < fuel + i → EndsFrom fuel i
  rounds_end zero i h f = absurd (omega arith)
  rounds_end (suc fuel) zero h f =
      later_EndsFrom fuel zero (goes_on-early zero none (omega arith))
        (rounds_end fuel 1 (omega arith) (omega arith))
  rounds_end (suc fuel) (suc j) h f = elim (Bool-cases (ltb (suc j) 30)) [
    | inl e ↦
        later_EndsFrom fuel (suc j) (goes_on-early (suc j) (some (times j)) (ground arith))
          (rounds_end fuel (suc (suc j)) (ground arith) (omega arith))
    | inr e ↦
        late_round fuel j h (ground arith) (λ g. rounds_end fuel (suc (suc j)) g (omega arith))
  ]

-- Where every read gives a time and the one in some round from the thirtieth on is not zero, the goroutine
-- of `init` ends: after thirty rounds or more, and no later than behind that round.
pub startup_ends :
    (clock_tick : ℕ) (files : FileSystem) (later : ℕ → FileSystem) (first : CpuTime)
    (times : ℕ → CpuTime) (k fuel : ℕ)
    → self_time clock_tick files ≡ some first
    → ((i : ℕ) → self_time clock_tick (later i) ≡ some (times i))
    → 29 ≤ k
    → eq (times k) no_time ≡ false
    → suc k < fuel
    → (n : ℕ) × (startup clock_tick files later fuel ≡ some (ended n)) × (30 ≤ n) × (n ≤ suc k)
unfolding startup
startup_ends clock_tick files later first times k fuel e reads h shown f =
    let (n, q, l, b) =
      rounds_end (λ i. self_time clock_tick (later i)) times reads k h shown fuel 0 (omega arith)
        (omega arith) in
    (n, rw (e, startup, q) refl, l, b)

-- Neither `init` nor its goroutine reads a time through a nil pointer, whatever the files hold.
pub startup_safe :
    (clock_tick : ℕ) (files : FileSystem) (later : ℕ → FileSystem) (fuel : ℕ)
    → startup clock_tick files later fuel ≢ some nil_pointer
unfolding startup
startup_safe clock_tick files later fuel = elim (Option-cases (self_time clock_tick files)) [
  | inl e ↦ rw (e, startup) (λ q. cc)
  | inr (t, e) ↦
      rw (e, startup)
        (λ q.
          rounds_safe (λ i. self_time clock_tick (later i)) fuel 0 none (inl (omega arith)) (cc))
]
