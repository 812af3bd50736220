-- ===== src/Processes/Stat.antt =====
-- proc_stats_linux.go: a process's times from /proc/<pid>/stat and its memory from /proc/<pid>/statm.
-- The clock tick and the page size, which the system gives, are parameters.
pub mod Times
pub mod Memory
use procstats.Base.{
  ℕ, suc, ◌/◌, ◌^◌, List, [], ◌∷◌, leb, Bytes, codes, length, get_elem?, Result, ok, err, ◌>>=◌,
  require, check,
}
use procstats.Base.Int.{ℤ, pos, negsuc, ◌+ℤ◌, ◌*ℤ◌, wrap64}
use procstats.Go.Files.{ReadError, FileSystem}
use procstats.Go.Paths.{join}
use procstats.Go.Strconv.{parse_int, format_int, neg}
use procstats.Go.Strings.{split_n}
use procstats.Processes.CpuTime.{CpuTime}

-- Where the functions give up. `out_of_range` would be a panic of an index.
pub data Error : Type 0 where
  unreadable : ReadError → Error
  few_fields bad_number out_of_range : Error

-- `procFileName` and `procFileContents`
unfoldable pub proc_file_name : ℤ → Bytes → Bytes
proc_file_name pid leaf_name = join (codes "/proc") (join (format_int pid) leaf_name)

unfoldable pub proc_file_contents : FileSystem → ℤ → Bytes → Result Error Bytes
unfolding proc_file_name
proc_file_contents files pid leaf_name = elim (files (proc_file_name pid leaf_name)) [
  | err e ↦ err (unreadable e)
  | ok contents ↦ ok contents
]

-- The number in field `i`.
abbrev pub number_at : List Bytes → ℕ → Result Error ℤ
number_at fs i =
    require (get_elem? fs i) out_of_range >>= (λ f. require (parse_int 64 f) bad_number)

-- Go's division of an int64 by a positive one, towards zero.
abbrev pub quot : ℤ → ℕ → ℤ
quot (pos a) d = pos (a / d)
quot (negsuc a) d = neg (suc a / d)

-- `time.Duration(ticks) * time.Second / clockTick`; sums and products wrap around.
unfoldable pub tick_time : ℕ → ℤ → ℤ → ℤ
tick_time clock_tick own children =
    quot (wrap64 (wrap64 (own +ℤ children) *ℤ pos 1000000000)) clock_tick

-- The times in the fields of a stat line.
unfoldable pub stat_times : ℕ → List Bytes → Result Error CpuTime
unfolding tick_time
stat_times clock_tick stat_fields = do
  passed ← check (leb 17 (length stat_fields)) few_fields
  utime_ticks ← number_at stat_fields 13
  stime_ticks ← number_at stat_fields 14
  cutime_ticks ← number_at stat_fields 15
  cstime_ticks ← number_at stat_fields 16
  ok (record {
    utime = tick_time clock_tick utime_ticks cutime_ticks;
    stime = tick_time clock_tick stime_ticks cstime_ticks;
  })

-- `linuxParseCPUTime`
unfoldable pub linux_parse_cpu_time : ℕ → Bytes → Result Error CpuTime
unfolding stat_times
linux_parse_cpu_time clock_tick b = stat_times clock_tick (split_n 18 (codes " ") b)

-- `readProcessCPUTime`
unfoldable pub read_process_cpu_time : ℕ → FileSystem → ℤ → Result Error CpuTime
unfolding linux_parse_cpu_time proc_file_contents
read_process_cpu_time clock_tick files pid =
    proc_file_contents files pid (codes "stat") >>= linux_parse_cpu_time clock_tick

-- `readProcessRSS`
unfoldable pub read_process_rss : ℕ → FileSystem → ℤ → Result Error ℤ
unfolding proc_file_contents
read_process_rss sys_pagesize files pid = do
  statm_contents ← proc_file_contents files pid (codes "statm")
  let statm_fields = split_n 7 (codes " ") statm_contents
  passed ← check (leb 3 (length statm_fields)) few_fields
  rss_pages ← number_at statm_fields 1
  ok (wrap64 (pos sys_pagesize *ℤ rss_pages))
