-- ===== src/Processes/Startup.antt =====
-- The `init` function of proc_stats_linux.go: a check at start-up, and a goroutine that goes on with it
-- once a second. Each reads /proc/self/stat as it is then.
pub mod Ends
use procstats.Base.{
  ℕ, zero, suc, ◌+◌, Bool, true, false, ◌||◌, Option, none, some, ltb, if◌then◌else◌, Bytes, codes,
  Result, ok, err,
}
use procstats.Base.Int.{pos}
use procstats.Go.Files.{FileSystem}
use procstats.Processes.CpuTime.{CpuTime, eq}
use procstats.Processes.Stat.{linux_parse_cpu_time}

-- What a read of the times gives; `none` is either panic "unexpected kernel shenanigans".
unfoldable pub self_time : ℕ → FileSystem → Option CpuTime
self_time clock_tick files = elim (files (codes "/proc/self/stat")) [
  | err e ↦ none
  | ok b ↦ elim (linux_parse_cpu_time clock_tick b) [ err e ↦ none | ok r ↦ some r ]
]

-- How the goroutine stands: it ended in this round, a read of it panicked, its condition read through
-- a nil pointer, or it still runs.
pub data Progress : Type 0 where
  ended panicked : ℕ → Progress
  nil_pointer : Progress
  running : ℕ → Option CpuTime → Progress

abbrev pub no_time : CpuTime
no_time = record { utime = pos 0; stime = pos 0 }

-- `i < 30 || ct.eq(&CPUTime{})`; `none` is a read through nil.
unfoldable pub goes_on : ℕ → Option CpuTime → Option Bool
unfolding eq
goes_on i ct =
    if ltb i 30 then some true else elim ct [ none ↦ none | some t ↦ some (eq t no_time) ]

-- At most `fuel` rounds of the loop, where `at` is what a read gives in each round.
unfoldable pub check_rounds : (ℕ → Option CpuTime) → ℕ → ℕ → Option CpuTime → Progress
unfolding goes_on
check_rounds at zero i ct = running i ct
check_rounds at (suc fuel) i ct = elim (goes_on i ct) [
  | none ↦ nil_pointer
  | some false ↦ ended i
  | some true ↦ elim (at i) [ none ↦ panicked i | some r ↦ check_rounds at fuel (suc i) (some r) ]
]

-- `init`: the check at once, and what the goroutine does in `fuel` rounds; `none` is a panic of `init`.
unfoldable pub startup : ℕ → FileSystem → (ℕ → FileSystem) → ℕ → Option Progress
unfolding self_time check_rounds
startup clock_tick files later fuel = elim (self_time clock_tick files) [
  | none ↦ none
  | some t ↦ some (check_rounds (λ i. self_time clock_tick (later i)) fuel 0 none)
]
