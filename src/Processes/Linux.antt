-- ===== src/Processes/Linux.antt =====
-- The platform of proc_stats_linux.go and proc_pid_status_linux.go.
use procstats.Base.{ℕ, Bytes, Option, none, some, map_err}
use procstats.Go.Files.{FileSystem}
use procstats.Go.Float.{Float64}
use procstats.Processes.Platform.{Memory, Times}
use procstats.Processes.Stat
use procstats.Processes.Stat.{read_process_rss, read_process_cpu_time}
use procstats.Processes.Status
use procstats.Processes.Status.{read_max_rss, reset_max_rss}

-- `W` is an error of `os.WriteFile`.
pub data Error (W : Type 0) : Type 0 where
  stat_failed : Stat.Error → Error W
  status_failed : Status.Error → Error W
  reset_failed : W → Error W

-- An error of a write, or nil.
abbrev pub reset_result : {W : Type 0} → Option W → Option (Error W)
reset_result none = none
reset_result (some e) = some (reset_failed e)

-- The page size, the files and `os.WriteFile` are parameters.
abbrev pub linux_memory :
    {W : Type 0} → Float64 → ℕ → FileSystem → (Bytes → Bytes → Option W) → Memory (Error W)
linux_memory fl page files write_file = record {
  read_process_rss = λ pid. map_err stat_failed (read_process_rss page files pid);
  read_max_rss = λ pid. map_err status_failed (read_max_rss fl files pid);
  reset_max_rss = λ pid. reset_result (reset_max_rss write_file pid);
}

abbrev pub linux_times : {W : Type 0} → ℕ → FileSystem → Times (Error W)
linux_times clock_tick files = record {
  read_process_cpu_time = λ pid. map_err stat_failed (read_process_cpu_time clock_tick files pid);
}

-- `sysClockTick` of sysconf_linux_nocgo.go; with cgo it is a value of the C library.
unfoldable pub sys_clock_tick : ℕ
sys_clock_tick = 100
