-- ===== src/Processes/Status.antt =====
-- proc_pid_status_linux.go: a process's status, and its high water mark.
pub mod Rendered
use procstats.Base.{Bytes, codes, Result, ok, err, ◌>>=◌}
use procstats.Base.Int.{ℤ}
use procstats.Go.Files.{ReadError, FileSystem}
use procstats.Go.Float.{Float64}
use procstats.Go.Paths.{join}
use procstats.Go.Strconv.{format_int}
use procstats.Pparser.Fields.{zero_struct, int_field}
use procstats.Pparser.Index.{new_parser}
use procstats.Pparser.Parse.{parse}
use procstats.Pparser.Setters
use procstats.Pparser.Setters.{Outcome, done, failed}
use procstats.Pparser.Types.{Struct}
use procstats.ProcStatus.{proc_pid_status}

-- Where `ReadProcStatus` gives up.
pub data Error : Type 0 where
  unreadable : ReadError → Error
  malformed : Setters.Error → Error

-- A file of a process: `filepath.Join("/proc", strconv.Itoa(pid), name)`.
abbrev pub proc_path : ℤ → Bytes → Bytes
proc_path pid name = join (codes "/proc") (join (format_int pid) name)

abbrev pub parsed_status : {F : Type 0} → Outcome F → Result Error (Struct F)
parsed_status (done out) = ok out
parsed_status (failed e out) = err (malformed e)

module _ (fl : Float64) where
  open fl use {Carrier}

  -- `ReadProcStatus`
  unfoldable pub read_proc_status : FileSystem → ℤ → Result Error (Struct Carrier)
  read_proc_status files pid = elim (files (proc_path pid (codes "status"))) [
    | err e ↦ err (unreadable e)
    | ok contents ↦ parsed_status (
        parse fl (new_parser proc_pid_status (codes ":")) contents (zero_struct fl proc_pid_status))
  ]

  -- `readMaxRSS`
  unfoldable pub read_max_rss : FileSystem → ℤ → Result Error ℤ
  unfolding read_proc_status
  read_max_rss files pid = do
    status ← read_proc_status files pid
    ok (int_field proc_pid_status (codes "VMHWM") status)

-- `resetMaxRSS`, with `os.WriteFile` as a parameter.
unfoldable pub reset_max_rss : {W : Type 0} → (Bytes → Bytes → W) → ℤ → W
reset_max_rss write_file pid = write_file (proc_path pid (codes "clear_refs")) (codes "5")
