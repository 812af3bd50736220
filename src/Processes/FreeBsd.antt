-- ===== src/Processes/FreeBsd.antt =====
-- proc_stats_bsd.go, and proc_stats_null.go for platforms without any of the others. `unix.SysctlRaw` and
-- the field `ki_rssize` of the struct that it fills are parameters.
use procstats.Base.{Bytes, none, some, Result, err, ◌>>=◌, ok}
use procstats.Base.Int.{ℤ, pos, ◌*ℤ◌, wrap64}
use procstats.Processes.Platform.{Memory}

-- `ExtractRSSKinfoProc` behind the read of `ki_rssize`, in C's 64 bits.
unfoldable pub extract_rss_kinfo_proc : ℤ → ℤ
extract_rss_kinfo_proc rssize = wrap64 (rssize *ℤ pos 4096)

module _ {E : Type 0} (sysctl_raw : ℤ → Result E Bytes) (ki_rssize : Bytes → ℤ) where
  -- `readProcessRSS`
  unfoldable pub read_process_rss : ℤ → Result E ℤ
  unfolding extract_rss_kinfo_proc
  read_process_rss pid = do pstats ← sysctl_raw pid; ok (extract_rss_kinfo_proc (ki_rssize pstats))

  -- `readMaxRSS` is `readProcessRSS`, and `resetMaxRSS` does nothing.
  abbrev pub freebsd_memory : Memory E
  freebsd_memory = record {
    read_process_rss = read_process_rss;
    read_max_rss = read_process_rss;
    reset_max_rss = λ pid. none;
  }

-- `ErrUnimplementedPlatform`
pub data Unimplemented : Type 0 where
  unimplemented_platform : Unimplemented

-- `readProcessRSS`, `readMaxRSS` and `resetMaxRSS` of proc_stats_null.go
abbrev pub null_memory : Memory Unimplemented
null_memory = record {
  read_process_rss = λ pid. err unimplemented_platform;
  read_max_rss = λ pid. err unimplemented_platform;
  reset_max_rss = λ pid. some unimplemented_platform;
}
