-- ===== src/Processes/Status/Rendered.antt =====
-- `readMaxRSS` on the /proc/<pid>/status files that the kernel writes.
use mathlib.Core.Path.{subst}
use procstats.Base.{
  sym, All-append, All_of_both, ◌≡◌, ◌≢◌, refl, ap, ◌∙◌, List, [], ◌∷◌, ◌++◌, Option, none, some,
  arith, Bytes, codes, equal, insert, lookup, All, ok, length,
}
use procstats.Base.Int.{ℤ, pos}
use procstats.Go.Files.{FileSystem}
use procstats.Go.Float.{Float64}
use procstats.Pparser.Dict.Files.{int_field-view, parse-rows}
use procstats.Pparser.Dict.Render.{Item, IsItem, amount, as_row, as_row-IsRow, row_value-item}
use procstats.Pparser.Dict.Rows.{Row, rows_text, Reads, rows_dict, rows_dict_other, rows_dict_last}
use procstats.Pparser.Dict.{view}
use procstats.Pparser.Fields.{int_field, position, zero_struct}
use procstats.Pparser.Index.{LineKvFileParser, new_parser, field_index}
use procstats.Pparser.Parse.{parse}
use procstats.Pparser.Setters.{field_kind, done}
use procstats.Pparser.Types.{Struct, arm, signed, int_value}
use procstats.ProcStatus.{proc_pid_status}
use procstats.Processes.Status.{proc_path, read_proc_status, read_max_rss}

abbrev parser : LineKvFileParser
parser = new_parser proc_pid_status (codes ":")

-- A line of the status that its field can hold, which is not the high water mark's.
abbrev pub IsOther : Float64 → Row → Type 0
IsOther fl r = Reads fl b':' (field_kind parser) r × (r.name ≢ codes "VmHWM")

abbrev pub IsPeak : Option Item → Type 0
IsPeak none = Unit
IsPeak (some i) = IsItem b':' i × (i.name ≡ codes "VmHWM")

-- The line of the high water mark, which a kernel thread does not have.
abbrev pub peak_rows : Option Item → List Row
peak_rows none = []
peak_rows (some i) = as_row i ∷ []

abbrev pub peak_amount : Option Item → ℤ
peak_amount none = pos 0
peak_amount (some i) = amount i

peak_start :
    (fl : Float64)
    → view parser (zero_struct fl proc_pid_status) (codes "VmHWM") ≡ some (int_value (pos 0))
unfolding view zero_struct new_parser field_index insert equal lookup
peak_start fl = refl

peak_field : lookup (codes "VmHWM") parser.idx ≡ some (position (codes "VMHWM") proc_pid_status)
unfolding new_parser field_index insert equal lookup
peak_field = refl

peak_kind : arm (field_kind parser (codes "VmHWM")) ≡ signed 64
unfolding new_parser field_index insert equal lookup field_kind
peak_kind = refl

zero_length : (fl : Float64) → length (zero_struct fl proc_pid_status) ≡ length proc_pid_status
unfolding zero_struct
zero_length fl = refl

peak_dict :
    (fl : Float64) (before : List Row) (peak : Option Item) (after : List Row)
    → All (Reads fl b':' (field_kind parser)) before
    → All (λ r. r.name ≢ codes "VmHWM") before
    → IsPeak peak
    → All (Reads fl b':' (field_kind parser)) after
    → All (λ r. r.name ≢ codes "VmHWM") after
    → rows_dict fl b':'
        (field_kind parser)
        (before ++ (peak_rows peak ++ after))
        (view parser (zero_struct fl proc_pid_status))
        (codes "VmHWM")
      ≡ some (int_value (peak_amount peak))
peak_dict fl before none after hb nb hp ha na =
    rows_dict_other fl b':' (field_kind parser) (before ++ after)
      (view parser (zero_struct fl proc_pid_status)) (codes "VmHWM")
      (All-append (Reads fl b':' (field_kind parser)) before after hb ha)
      (All-append (λ r. r.name ≢ codes "VmHWM") before after nb na)
    ∙ peak_start fl
peak_dict fl before (some i) after hb nb (hi, e) ha na =
    let kinds = field_kind parser in
    let start = view parser (zero_struct fl proc_pid_status) in
    ap (rows_dict fl b':' kinds (before ++ as_row i ∷ after) start) (sym e)
    ∙ rows_dict_last fl b':' kinds before (as_row i) after start (int_value (amount i)) hb
        (row_value-item fl b':' kinds i (ap (λ n. arm (kinds n)) e ∙ peak_kind) hi) ha
        (subst (λ n. All (λ r. r.name ≢ n) after) (sym e) na)

peak-Reads :
    (fl : Float64) (peak : Option Item)
    → IsPeak peak
    → All (Reads fl b':' (field_kind parser)) (peak_rows peak)
peak-Reads fl none h = tt
peak-Reads fl (some i) (h, e) = (
  (
    as_row-IsRow b':' i h,
    (
      int_value (amount i),
      row_value-item fl b':' (field_kind parser) i
          (ap (λ n. arm (field_kind parser n)) e ∙ peak_kind) h,
    ),
  ),
  tt,
)

status_peak :
    {F : Type 0} (out : Struct F) (z : ℤ)
    → view parser out (codes "VmHWM") ≡ some (int_value z)
    → int_field proc_pid_status (codes "VMHWM") out ≡ z
unfolding new_parser equal
status_peak out z e = int_field-view parser out (codes "VmHWM") (codes "VMHWM") z peak_field e

-- What `ReadProcStatus` makes of a file that `Parse` reads.
read_proc_status-parse :
    (fl : Float64) (files : FileSystem) (pid : ℤ) (contents : Bytes) (out : Struct fl.Carrier)
    → files (proc_path pid (codes "status")) ≡ ok contents
    → parse fl parser contents (zero_struct fl proc_pid_status) ≡ done out
    → read_proc_status fl files pid ≡ ok out
unfolding read_proc_status
read_proc_status-parse fl files pid contents out e h = rw (e, read_proc_status, h) refl

-- Where every line of /proc/<pid>/status has a value that its field can hold, `readMaxRSS` gives the amount
-- of the line VmHWM, its unit included, and 0 where there is no such line, as for a kernel thread.
pub read_max_rss-status :
    (fl : Float64) (files : FileSystem) (pid : ℤ) (before : List Row) (peak : Option Item)
    (after : List Row)
    → files (proc_path pid (codes "status"))
      ≡ ok (rows_text b':' (before ++ (peak_rows peak ++ after)))
    → All (IsOther fl) before
    → IsPeak peak
    → All (IsOther fl) after
    → read_max_rss fl files pid ≡ ok (peak_amount peak)
unfolding read_max_rss
read_max_rss-status fl files pid before peak after e hb hp ha =
    let Reading : Row → Type 0 = Reads fl b':' (field_kind parser) in
    let Unnamed : Row → Type 0 = λ r. r.name ≢ codes "VmHWM" in
    let (rb, nb) = All_of_both Reading Unnamed before hb in
    let (ra, na) = All_of_both Reading Unnamed after ha in
    let rows = before ++ (peak_rows peak ++ after) in
    let reads =
      All-append Reading before (peak_rows peak ++ after) rb
        (All-append Reading (peak_rows peak) after (peak-Reads fl peak hp) ra) in
    let (out, parsed, same) =
      parse-rows fl proc_pid_status b':' rows (zero_struct fl proc_pid_status) (zero_length fl)
        (omega arith) reads in
    let peak_read = same (codes "VmHWM") ∙ peak_dict fl before peak after rb nb hp ra na in
    rw (read_proc_status-parse fl files pid (rows_text b':' rows) out e parsed, read_max_rss)
      (ap ok (status_peak out (peak_amount peak) peak_read))
