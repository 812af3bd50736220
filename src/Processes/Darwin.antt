-- ===== src/Processes/Darwin.antt =====
-- proc_stats_darwin.go. `proc_pidinfo` of the C library is a parameter, and so are the size of its struct
-- and the clock tick.
pub mod Times
use procstats.Base.{ℕ, Option, none, some, Result, ok, err, ◌||◌, if◌then◌else◌}
use procstats.Base.Int.{ℤ, pos, ◌*ℤ◌, wrap64, wrap32, ltb_ℤ}
use procstats.Processes.CpuTime.{CpuTime}
use procstats.Processes.Platform.{Memory}
use procstats.Processes.Platform
use procstats.Processes.Stat.{quot}

-- The fields of `struct proc_taskallinfo` that are read, each a uint64.
pub record TaskInfo : Type 0 where
  pub resident_size : ℕ
  pub total_user : ℕ
  pub total_system : ℕ

pub data Error : Type 0 where
  mem_info_failed cpu_info_failed : Error

-- The process to the number of bytes that are filled, and the struct.
abbrev pub ProcPidinfo : Type 0
ProcPidinfo = ℤ → ℤ × TaskInfo

module _ (info_size : ℕ) (proc_pidinfo : ProcPidinfo) where
  -- The test and the struct that `get_mem_info` and `get_cpu_info` share; `none` is the result -1. The
  -- process is an `int` of 32 bits there.
  unfoldable pub task_info : ℤ → Option TaskInfo
  task_info pid =
      let (nb, ti) = proc_pidinfo (wrap32 pid) in
      if ltb_ℤ nb (pos 1) || ltb_ℤ nb (pos info_size) then none else some ti

  -- `readProcessRSS`
  unfoldable pub read_process_rss : ℤ → Result Error ℤ
  unfolding task_info
  read_process_rss pid = elim (task_info pid) [
    | none ↦ err mem_info_failed
    | some ti ↦ ok (wrap64 (pos ti.resident_size))
  ]

-- `time.Duration(uint64(total)) * time.Second / clockTick`
unfoldable pub total_time : ℕ → ℕ → ℤ
total_time clock_tick total = quot (wrap64 (wrap64 (pos total) *ℤ pos 1000000000)) clock_tick

module _ (info_size : ℕ) (proc_pidinfo : ProcPidinfo) where
  -- `readProcessCPUTime`
  unfoldable pub read_process_cpu_time : ℕ → ℤ → Result Error CpuTime
  unfolding task_info total_time
  read_process_cpu_time clock_tick pid = elim (task_info info_size proc_pidinfo pid) [
    | none ↦ err cpu_info_failed
    | some ti ↦ ok (record {
      utime = total_time clock_tick ti.total_user;
      stime = total_time clock_tick ti.total_system;
    })
  ]

  -- `readMaxRSS` is `readProcessRSS`, and `resetMaxRSS` does nothing.
  abbrev pub darwin_memory : Memory Error
  darwin_memory = record {
    read_process_rss = read_process_rss info_size proc_pidinfo;
    read_max_rss = read_process_rss info_size proc_pidinfo;
    reset_max_rss = λ pid. none;
  }

  abbrev pub darwin_times : ℕ → Platform.Times Error
  darwin_times clock_tick = record { read_process_cpu_time = read_process_cpu_time clock_tick }
