-- ===== src/Tests/Files.antt =====
-- Files of numbers at concrete lines.
use procstats.Base.{
  ℕ, ◌≡◌, refl, true, false, List, [], ◌∷◌, arith, Bytes, codes, equal, insert, lookup, All, ok,
  err, if◌then◌else◌,
}
use procstats.Base.Int.{ℤ, pos, negsuc, ◌*ℤ◌, IsInt64}
use procstats.Cgrouplimits.CpuUsage.Rendered.{from_micros, cgroup_v2_cpu_usage-render}
use procstats.Cgrouplimits.CpuUsage.{cgroup_v2_cpu_usage}
use procstats.Cgrouplimits.Host.Rendered.{exact_host_stats, host_mem_stats-render}
use procstats.Cgrouplimits.Host.{host_mem_stats}
use procstats.Cgrouplimits.MemLimit.{read_int_val_file}
use procstats.Cgrouplimits.MemUsage.Rendered.{exact_stats, v2_memory_stats-render}
use procstats.Cgrouplimits.MemUsage.{v2_memory_stats, limit_or_none}
use procstats.Cgresolver.CgPath.{CGroupPath, v2}
use procstats.Go.Files.{FileSystem, not_exist, read_in}
use procstats.Go.Spaces.{is_ascii_space, trim_space}
use procstats.Go.Spaces.Trim.{IsSpace}
use procstats.Go.Strings.Cut.{Lacks}
use procstats.Go.Strconv.{parse_int}
use procstats.Pparser.Dict.Files.{Shows, parse-render}
use procstats.Pparser.Dict.Index.{IsSound, new_parser-IsSound}
use procstats.Pparser.Dict.Lines.{read_dict}
use procstats.Pparser.Dict.Refine.{Agrees, parse-Agrees}
use procstats.Pparser.Dict.Render.{Item, render, IsItem, written}
use procstats.Pparser.Dict.{view}
use procstats.Pparser.Index.{new_parser, field_index}
use procstats.Pparser.Parse.{parse}
use procstats.Pparser.Setters.{field_kind}
use procstats.Pparser.Types.{arm, signed}
use procstats.Tests.Parser.{whole, stat, empty_stat, content}

parse-Agrees_example :
    Agrees
      (new_parser stat (codes ":"))
      (parse whole (new_parser stat (codes ":")) content empty_stat)
      (read_dict whole
        (codes ":")
        (field_kind (new_parser stat (codes ":")))
        content
        (view (new_parser stat (codes ":")) empty_stat))
parse-Agrees_example = parse-Agrees whole stat (codes ":") content empty_stat refl

-- A line of kB behind a separator `k`, with two spaces.
abbrev line : Bytes → ℤ → Item
line name n = record { name = name; space = codes "  "; number = n; kilo = true }

spaces-IsSpace : All IsSpace (codes "  ")
unfolding is_ascii_space
spaces-IsSpace = (refl, (refl, tt))

line-IsItem :
    (k : ℕ) (name : Bytes) (n : ℤ)
    → Lacks k name
    → Lacks b'\n' name
    → IsInt64 n
    → IsInt64 (n *ℤ pos 1024)
    → IsItem k (line name n)
line-IsItem k name n hk hn h g = record {
  name_key = hk;
  name_line = hn;
  space_space = spaces-IsSpace;
  space_line = (omega arith, (omega arith, tt));
  number_fits = h;
  amount_fits = g;
}

-- `anon` twice, and `other` between.
abbrev items : List Item
items =
    line (codes "anon") (pos 3) ∷ line (codes "other") (negsuc 6) ∷ line (codes "anon") (pos 4) ∷ []

anon_3-IsItem : IsItem b':' (line (codes "anon") (pos 3))
unfolding ◌*ℤ◌
anon_3-IsItem =
    line-IsItem b':' (codes "anon") (pos 3) (ground arith) (ground arith) (omega arith, omega arith)
      (omega arith, omega arith)

other-IsItem : IsItem b':' (line (codes "other") (negsuc 6))
unfolding ◌*ℤ◌
other-IsItem =
    line-IsItem b':' (codes "other") (negsuc 6) (ground arith) (ground arith)
      (omega arith, omega arith) (omega arith, omega arith)

anon_4-IsItem : IsItem b':' (line (codes "anon") (pos 4))
unfolding ◌*ℤ◌
anon_4-IsItem =
    line-IsItem b':' (codes "anon") (pos 4) (ground arith) (ground arith) (omega arith, omega arith)
      (omega arith, omega arith)

anon_signed : arm (field_kind (new_parser stat (codes ":")) (codes "anon")) ≡ signed 64
unfolding new_parser field_index insert equal field_kind lookup
anon_signed = refl

other_signed : arm (field_kind (new_parser stat (codes ":")) (codes "other")) ≡ signed 64
unfolding new_parser field_index insert equal field_kind lookup
other_signed = refl

parse-render_example :
    Shows
      (new_parser stat (codes ":"))
      (parse whole (new_parser stat (codes ":")) (render b':' items) empty_stat)
      (written whole items (view (new_parser stat (codes ":")) empty_stat))
parse-render_example = parse-render whole stat b':' items empty_stat refl (omega arith) (
  (anon_3-IsItem, anon_signed),
  ((other-IsItem, other_signed), ((anon_4-IsItem, anon_signed), tt)),
)

-- A line of a file of a cgroup: one space, no unit.
abbrev pub entry_line : Bytes → ℤ → Item
entry_line name n = record { name = name; space = []; number = n; kilo = false }

pub entry_line-IsItem :
    (name : Bytes) (n : ℤ)
    → Lacks b' ' name
    → Lacks b'\n' name
    → IsInt64 n
    → IsInt64 (n *ℤ pos 1)
    → IsItem b' ' (entry_line name n)
entry_line-IsItem name n hk hn h g = record {
  name_key = hk;
  name_line = hn;
  space_space = tt;
  space_line = tt;
  number_fits = h;
  amount_fits = g;
}

abbrev pub one_entry : List Item
one_entry = entry_line (codes "user_usec") (pos 7) ∷ []

pub one_entry-IsItem : All (IsItem b' ') one_entry
unfolding ◌*ℤ◌
one_entry-IsItem = (
  entry_line-IsItem (codes "user_usec") (pos 7) (ground arith) (ground arith)
      (omega arith, omega arith) (omega arith, omega arith),
  tt,
)

abbrev pub mem_entry : List Item
mem_entry = entry_line (codes "file") (pos 4096) ∷ []

pub mem_entry-IsItem : All (IsItem b' ') mem_entry
unfolding ◌*ℤ◌
mem_entry-IsItem = (
  entry_line-IsItem (codes "file") (pos 4096) (ground arith) (ground arith)
      (omega arith, omega arith) (omega arith, omega arith),
  tt,
)

abbrev pub info_line : List Item
info_line = line (codes "MemTotal") (pos 16) ∷ []

pub info_line-IsItem : All (IsItem b':') info_line
unfolding ◌*ℤ◌
info_line-IsItem = (
  line-IsItem b':' (codes "MemTotal") (pos 16) (ground arith) (ground arith)
      (omega arith, omega arith) (omega arith, omega arith),
  tt,
)

abbrev files : FileSystem
files path =
    if equal path (codes "/g/cpu.stat")
    then ok (render b' ' one_entry)
    else if equal path (codes "/g/memory.stat")
    then ok (render b' ' mem_entry)
    else if equal path (codes "/g/memory.events")
    then ok []
    else if equal path (codes "/g/memory.current")
    then ok (codes "8192\n")
    else if equal path (codes "/g/memory.max")
    then ok (codes "65536\n")
    else if equal path (codes "/proc/meminfo")
    then ok (render b':' info_line)
    else if equal path (codes "/proc/vmstat")
    then ok []
    else err not_exist

abbrev path : CGroupPath
path = record { abs_path = codes "/g"; mount_path = codes "/g"; mode = v2 }

cpu_stat_read : read_in files (codes "/g") (codes "cpu.stat") ≡ ok (render b' ' one_entry)
unfolding read_in equal
cpu_stat_read = refl

memory_stat_read : read_in files (codes "/g") (codes "memory.stat") ≡ ok (render b' ' mem_entry)
unfolding read_in equal
memory_stat_read = refl

memory_events_read : read_in files (codes "/g") (codes "memory.events") ≡ ok (render b' ' [])
unfolding read_in equal
memory_events_read = refl

memory_current_read : read_int_val_file files (codes "/g") (codes "memory.current") ≡ ok (pos 8192)
unfolding read_int_val_file read_in equal trim_space parse_int
memory_current_read = refl

memory_max_read :
    limit_or_none (read_int_val_file files (codes "/g") (codes "memory.max")) ≡ ok (pos 65536)
unfolding limit_or_none read_int_val_file read_in equal trim_space parse_int
memory_max_read = refl

meminfo_read : files (codes "/proc/meminfo") ≡ ok (render b':' info_line)
unfolding equal
meminfo_read = refl

vmstat_read : files (codes "/proc/vmstat") ≡ ok (render b' ' [])
unfolding equal
vmstat_read = refl

cgroup_v2_cpu_usage-render_example :
    cgroup_v2_cpu_usage whole files (codes "/g")
    ≡ ok (record {
      limit = pos 0;
      usage = record {
        utime = from_micros one_entry (codes "user_usec");
        stime = from_micros one_entry (codes "system_usec");
      };
      throttled_time = from_micros one_entry (codes "throttled_usec");
    })
cgroup_v2_cpu_usage-render_example =
    cgroup_v2_cpu_usage-render whole files (codes "/g") one_entry cpu_stat_read one_entry-IsItem

v2_memory_stats-render_example :
    v2_memory_stats whole files path
    ≡ ok (exact_stats mem_entry [] (pos 65536) (pos 8192), pos 65536)
v2_memory_stats-render_example =
    v2_memory_stats-render whole files path mem_entry [] (pos 65536) (pos 8192) memory_stat_read
      mem_entry-IsItem memory_events_read tt memory_current_read memory_max_read

host_mem_stats-render_example : host_mem_stats whole files ≡ ok (exact_host_stats info_line [])
host_mem_stats-render_example =
    host_mem_stats-render whole files info_line [] meminfo_read info_line-IsItem vmstat_read tt

new_parser-IsSound_example : IsSound 3 (new_parser stat (codes ":")).index
new_parser-IsSound_example = new_parser-IsSound stat (codes ":")
