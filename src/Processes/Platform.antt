-- ===== src/Processes/Platform.antt =====
-- The portable functions of pstats.go, over the functions that each platform declares.
use procstats.Base.{Result, Option}
use procstats.Base.Int.{ℤ}
use procstats.Processes.CpuTime.{CpuTime}

-- What every platform declares: the proc_stats_*.go files, and proc_pid_status_linux.go on Linux.
pub record Memory (E : Type 0) : Type 0 where
  pub read_process_rss : ℤ → Result E ℤ
  pub read_max_rss : ℤ → Result E ℤ
  pub reset_max_rss : ℤ → Option E

-- What Linux and Darwin declare.
pub record Times (E : Type 0) : Type 0 where
  pub read_process_cpu_time : ℤ → Result E CpuTime

module _ {E : Type 0} where
  -- `RSS`, `MaxRSS` and `ResetMaxRSS`
  unfoldable pub rss : Memory E → ℤ → Result E ℤ
  rss p pid = p.read_process_rss pid

  unfoldable pub max_rss : Memory E → ℤ → Result E ℤ
  max_rss p pid = p.read_max_rss pid

  unfoldable pub reset : Memory E → ℤ → Option E
  reset p pid = p.reset_max_rss pid

  -- `ProcessCPUTime`
  unfoldable pub process_cpu_time : Times E → ℤ → Result E CpuTime
  process_cpu_time p pid = p.read_process_cpu_time pid
