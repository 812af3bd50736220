-- ===== src/Tests/Times.antt =====
-- A process's times at concrete values.
use procstats.Base.{◌↔◌, ◌*◌, ◌/◌, ◌^◌, ◌<◌, ◌≡◌, refl, List, [], ◌∷◌, arith, Bytes, codes, All, ok}
use procstats.Base.Int.{pos, negsuc}
use procstats.Go.Strings.Cut.{Lacks}
use procstats.Processes.CpuTime.{CpuTime, sub, add, add-sub}
use procstats.Processes.Darwin
use procstats.Processes.Darwin.{ProcPidinfo}
use procstats.Processes.Darwin.Times.{read_process_cpu_time_exact}
use procstats.Processes.Stat.Times.{stat_line, linux_parse_cpu_time-stat_line}
use procstats.Go.Files.{FileSystem}
use procstats.Processes.Stat.Memory.{statm_line, read_process_rss-statm}
use procstats.Processes.Stat.{linux_parse_cpu_time, read_process_rss}

abbrev early : CpuTime
early = record { utime = negsuc 9223372036854775807; stime = pos 5 }

abbrev late : CpuTime
late = record { utime = pos 9223372036854775807; stime = pos 9 }

add-sub_example : add (sub late early) early ≡ late
add-sub_example = add-sub late early (omega arith, omega arith) (omega arith, omega arith)

-- The fields in front of the times.
abbrev pub before : List Bytes
before =
    codes "12"
    ∷ codes "(sh)"
    ∷ codes "S"
    ∷ codes "1"
    ∷ codes "12"
    ∷ codes "12"
    ∷ codes "0"
    ∷ codes "-1"
    ∷ codes "4194304"
    ∷ codes "100"
    ∷ codes "0"
    ∷ codes "2"
    ∷ codes "0"
    ∷ []

pub before-Lacks : All (Lacks b' ') before
before-Lacks = ground arith

linux_parse_cpu_time-stat_line_example :
    linux_parse_cpu_time 100 (stat_line before 250 3 50 1 (codes "20 0 1"))
    ≡ ok (record { utime = pos 3000000000; stime = pos 40000000 })
linux_parse_cpu_time-stat_line_example =
    linux_parse_cpu_time-stat_line 100 before 250 3 50 1 (codes "20 0 1") refl before-Lacks
      (omega arith) (omega arith)

abbrev statm_files : FileSystem
statm_files path = ok (statm_line 1000 25 (codes "10 1 0 50 0\n"))

read_process_rss-statm_example : read_process_rss 4096 statm_files (pos 12) ≡ ok (pos 102400)
read_process_rss-statm_example =
    read_process_rss-statm 4096 statm_files (pos 12) 1000 25 (codes "10 1 0 50 0\n") refl
      (omega arith) (omega arith)

-- A process that is filled in full, with a time that fits and one that does not.
abbrev pidinfo : ProcPidinfo
pidinfo pid =
    (pos 232, record { resident_size = 4096; total_user = 9000000000; total_system = 9300000000 })

read_process_cpu_time_exact_example :
    (t : CpuTime) × (Darwin.read_process_cpu_time 232 pidinfo 100 (pos 12) ≡ ok t)
    × ((t.utime ≡ pos (9000000000 * 1000000000 / 100)) ↔ (9000000000 * 1000000000 < 2 ^ 63))
    × ((t.stime ≡ pos (9300000000 * 1000000000 / 100)) ↔ (9300000000 * 1000000000 < 2 ^ 63))
read_process_cpu_time_exact_example =
    read_process_cpu_time_exact 100 (omega arith) (omega arith) 232 pidinfo (pos 12) 232
      (record { resident_size = 4096; total_user = 9000000000; total_system = 9300000000 }) refl
      (omega arith) (omega arith) (omega arith) (omega arith)
