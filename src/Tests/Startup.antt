-- ===== src/Tests/Startup.antt =====
-- The check at start-up on a file that does not change.
use procstats.Base.{ℕ, ◌≡◌, ◌≢◌, ◌≤◌, refl, false, some, arith, codes, ok}
use procstats.Base.Int.{pos}
use procstats.Go.Files.{FileSystem}
use procstats.Processes.CpuTime.{CpuTime, eq}
use procstats.Processes.Stat.Times.{stat_line, linux_parse_cpu_time-stat_line}
use procstats.Processes.Startup.Ends.{startup_ends, startup_safe}
use procstats.Processes.Startup.{self_time, ended, nil_pointer, no_time, startup}
use procstats.Tests.Times.{before, before-Lacks}

abbrev files : FileSystem
files path = ok (stat_line before 250 3 50 1 (codes "20 0 1"))

abbrev shown : CpuTime
shown = record { utime = pos 3000000000; stime = pos 40000000 }

self_time-shown : self_time 100 files ≡ some shown
unfolding self_time
self_time-shown =
    let e =
      linux_parse_cpu_time-stat_line 100 before 250 3 50 1 (codes "20 0 1") refl before-Lacks
        (omega arith) (omega arith) in
    rw (e, self_time) refl

shown_not_zero : eq shown no_time ≡ false
unfolding eq
shown_not_zero = refl

startup_ends_example :
    (n : ℕ) × (startup 100 files (λ i. files) 40 ≡ some (ended n)) × (30 ≤ n) × (n ≤ 30)
startup_ends_example =
    startup_ends 100 files (λ i. files) shown (λ i. shown) 29 40 self_time-shown
      (λ i. self_time-shown) (omega arith) shown_not_zero (omega arith)

startup_safe_example : startup 100 files (λ i. files) 40 ≢ some nil_pointer
startup_safe_example = startup_safe 100 files (λ i. files) 40
