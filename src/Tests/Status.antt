-- ===== src/Tests/Status.antt =====
-- A process's status at a concrete file.
use procstats.Base.{
  ◌≡◌, ◌≢◌, refl, List, [], ◌∷◌, ◌++◌, some, arith, Bytes, codes, equal, insert, lookup, true, All,
  ok,
}
use procstats.Base.Int.{ℤ, pos, wrap64, ◌*ℤ◌}
use procstats.Go.Files.{FileSystem}
use procstats.Pparser.Dict.Render.{Item, IsItem}
use procstats.Pparser.Dict.Rows.{Row, rows_text, row_value}
use procstats.Pparser.Index.{new_parser, field_index}
use procstats.Pparser.Dict.Lines.{with_unit}
use procstats.Pparser.Setters.{field_kind}
use procstats.Pparser.Types.{Scalar, string_value, uint_value, int_value}
use procstats.ProcStatus.{proc_pid_status}
use procstats.Go.Spaces.{is_ascii_space, trim_space}
use procstats.Go.Strconv.{parse_int, parse_uint}
use procstats.Go.Strings.Cut.{Lacks}
use procstats.Processes.Status.Rendered.{IsOther, peak_rows, read_max_rss-status}
use procstats.Processes.Status.{read_max_rss}
use procstats.Tests.Parser.{whole}

abbrev row : Bytes → Bytes → Row
row name rest = record { name = name; rest = rest }

abbrev name_row : Row
name_row = row (codes "Name") (codes "\tmy cat")

abbrev umask_row : Row
umask_row = row (codes "Umask") (codes "\t0022")

abbrev groups_row : Row
groups_row = row (codes "Groups") (codes "\t ")

abbrev peak_row : Row
peak_row = row (codes "VmPeak") (codes "\t    8192 kB")

abbrev rss_row : Row
rss_row = row (codes "VmRSS") (codes "\t    1024 kB")

abbrev filters_row : Row
filters_row = row (codes "Seccomp_filters") (codes "\t0")

abbrev before : List Row
before = name_row ∷ umask_row ∷ groups_row ∷ peak_row ∷ []

abbrev after : List Row
after = rss_row ∷ filters_row ∷ []

abbrev peak : Item
peak = record { name = codes "VmHWM"; space = codes "\t    "; number = pos 5000; kilo = true }

abbrev status_files : FileSystem
status_files path = ok (rows_text b':' (before ++ (peak_rows (some peak) ++ after)))

-- A line that is read as this value.
row-IsOther :
    (r : Row) (v : Scalar ℤ)
    → Lacks b':' r.name
    → Lacks b'\n' r.name
    → Lacks b'\n' r.rest
    → row_value whole b':' (field_kind (new_parser proc_pid_status (codes ":"))) r ≡ some v
    → r.name ≢ codes "VmHWM"
    → IsOther whole r
row-IsOther r v k n l e d = ((record { name_key = k; name_line = n; rest_line = l }, (v, e)), d)

name_row-IsOther : IsOther whole name_row
unfolding field_kind new_parser field_index insert lookup equal trim_space parse_int parse_uint
    with_unit wrap64 ◌*ℤ◌
name_row-IsOther =
    row-IsOther name_row (string_value (codes "my cat")) (ground arith) (ground arith)
      (ground arith) refl (ground arith)

umask_row-IsOther : IsOther whole umask_row
unfolding field_kind new_parser field_index insert lookup equal trim_space parse_int parse_uint
    with_unit wrap64 ◌*ℤ◌
umask_row-IsOther =
    row-IsOther umask_row (uint_value 22) (ground arith) (ground arith) (ground arith) refl
      (ground arith)

groups_row-IsOther : IsOther whole groups_row
unfolding field_kind new_parser field_index insert lookup equal trim_space parse_int parse_uint
    with_unit wrap64 ◌*ℤ◌
groups_row-IsOther =
    row-IsOther groups_row (string_value []) (ground arith) (ground arith) (ground arith) refl
      (ground arith)

peak_row-IsOther : IsOther whole peak_row
unfolding field_kind new_parser field_index insert lookup equal trim_space parse_int parse_uint
    with_unit wrap64 ◌*ℤ◌
peak_row-IsOther =
    row-IsOther peak_row (int_value (pos 8388608)) (ground arith) (ground arith) (ground arith) refl
      (ground arith)

rss_row-IsOther : IsOther whole rss_row
unfolding field_kind new_parser field_index insert lookup equal trim_space parse_int parse_uint
    with_unit wrap64 ◌*ℤ◌
rss_row-IsOther =
    row-IsOther rss_row (int_value (pos 1048576)) (ground arith) (ground arith) (ground arith) refl
      (ground arith)

filters_row-IsOther : IsOther whole filters_row
unfolding field_kind new_parser field_index insert lookup equal trim_space parse_int parse_uint
    with_unit wrap64 ◌*ℤ◌
filters_row-IsOther =
    row-IsOther filters_row (string_value (codes "0")) (ground arith) (ground arith) (ground arith)
      refl (ground arith)

before-IsOther : All (IsOther whole) before
before-IsOther =
    (name_row-IsOther, (umask_row-IsOther, (groups_row-IsOther, (peak_row-IsOther, tt))))

after-IsOther : All (IsOther whole) after
after-IsOther = (rss_row-IsOther, (filters_row-IsOther, tt))

peak-IsItem : IsItem b':' peak
unfolding ◌*ℤ◌ is_ascii_space
peak-IsItem = record {
  name_key = ground arith;
  name_line = ground arith;
  space_space = ground arith;
  space_line = ground arith;
  number_fits = omega arith;
  amount_fits = omega arith;
}

read_max_rss-status_example : read_max_rss whole status_files (pos 12) ≡ ok (pos 5120000)
unfolding ◌*ℤ◌
read_max_rss-status_example =
    read_max_rss-status whole status_files (pos 12) before (some peak) after refl before-IsOther
      (peak-IsItem, refl) after-IsOther
