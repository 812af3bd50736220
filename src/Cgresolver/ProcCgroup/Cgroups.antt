-- ===== src/Cgresolver/ProcCgroup/Cgroups.antt =====
-- `parseCGSubsystems` on the /proc/cgroups tables that the kernel writes.
use procstats.Base.{
  ℕ, ◌≡◌, ◌≢◌, refl, ap, ◌∙◌, Bool, true, false, List, [], ◌∷◌, ◌++◌, some, arith, Bytes, codes,
  equal, All, All-append, ok,
}
use procstats.Base.Int.{IsInt64}
use procstats.Cgresolver.ProcCgroup.Table.{
  CGroupSubsystem, expected_columns, extract_row, row_reader, table_rows, table,
  parse_cg_subsystems,
}
use procstats.Cgresolver.ProcCgroup.{equal_lists}
use procstats.Go.Spaces.Words.{IsGraphic, fields-append, fields_word}
use procstats.Go.Spaces.{is_ascii_space, fields}
use procstats.Go.Strconv.Decimal.{parse_int-format_int}
use procstats.Go.Strconv.Text.{IsGraphic-Lacks, format_int-IsGraphic, format_int_not_nil}
use procstats.Go.Strconv.{format_int, parse_bool}
use procstats.Go.Strings.Cut.{Lacks, split-append}
use procstats.Go.Strings.{split, trim_left}

-- The first line of the table.
abbrev pub header : Bytes
header = codes "#subsys_name\thierarchy\tnum_cgroups\tenabled"

abbrev pub digit_of : Bool → Bytes
digit_of true = codes "1"
digit_of false = codes "0"

abbrev pub row_line : CGroupSubsystem → Bytes
row_line c =
    c.subsys
    ++ b'\t'
      ∷ (format_int c.hierarchy ++ b'\t' ∷ (format_int c.num_cgroups ++ b'\t' ∷ digit_of c.enabled))

abbrev pub rows : List CGroupSubsystem → Bytes
rows [] = []
rows (c ∷ cs) = row_line c ++ b'\n' ∷ rows cs

-- The file: the first line, and a line for each subsystem.
abbrev pub cgroups_file : List CGroupSubsystem → Bytes
cgroups_file cs = header ++ b'\n' ∷ rows cs

-- A name of seen ASCII, and numbers that fit an int.
pub record IsSubsystem (c : CGroupSubsystem) : Type 0 where
  pub name_some : c.subsys ≢ []
  pub name_graphic : All IsGraphic c.subsys
  pub hierarchy_fits : IsInt64 c.hierarchy
  pub num_cgroups_fits : IsInt64 c.num_cgroups

tab-IsSpace : is_ascii_space b'\t' ≡ true
unfolding is_ascii_space
tab-IsSpace = refl

digit_of-fields : (b : Bool) → fields (digit_of b) ≡ digit_of b ∷ []
digit_of-fields true = fields_word (codes "1") (λ e. cc) ((omega arith, omega arith), tt)
digit_of-fields false = fields_word (codes "0") (λ e. cc) ((omega arith, omega arith), tt)

row_line-fields :
    (c : CGroupSubsystem)
    → IsSubsystem c
    → fields (row_line c)
      ≡ c.subsys ∷ format_int c.hierarchy ∷ format_int c.num_cgroups ∷ digit_of c.enabled ∷ []
row_line-fields c h =
    fields-append c.subsys b'\t'
      (format_int c.hierarchy ++ b'\t' ∷ (format_int c.num_cgroups ++ b'\t' ∷ digit_of c.enabled))
      h.name_some h.name_graphic tab-IsSpace
    ∙ ap (λ t. c.subsys ∷ t)
        (fields-append (format_int c.hierarchy) b'\t'
            (format_int c.num_cgroups ++ b'\t' ∷ digit_of c.enabled)
            (format_int_not_nil c.hierarchy) (format_int-IsGraphic c.hierarchy) tab-IsSpace
          ∙ ap (λ t. format_int c.hierarchy ∷ t)
              (fields-append (format_int c.num_cgroups) b'\t' (digit_of c.enabled)
                  (format_int_not_nil c.num_cgroups) (format_int-IsGraphic c.num_cgroups)
                  tab-IsSpace
                ∙ ap (λ t. format_int c.num_cgroups ∷ t) (digit_of-fields c.enabled)))

parse_bool-digit_of : (b : Bool) → parse_bool (digit_of b) ≡ some b
unfolding parse_bool equal
parse_bool-digit_of true = refl
parse_bool-digit_of false = refl

extract_row-line : (c : CGroupSubsystem) → IsSubsystem c → extract_row (fields (row_line c)) ≡ ok c
unfolding extract_row
extract_row-line c h =
    rw
      (
        row_line-fields c h,
        extract_row,
        parse_int-format_int c.hierarchy h.hierarchy_fits,
        parse_int-format_int c.num_cgroups h.num_cgroups_fits,
        parse_bool-digit_of c.enabled,
      )
      refl

digit_of-Lacks : (b : Bool) → Lacks b'\n' (digit_of b)
digit_of-Lacks true = (omega arith, tt)
digit_of-Lacks false = (omega arith, tt)

row_line-Lacks : (c : CGroupSubsystem) → IsSubsystem c → Lacks b'\n' (row_line c)
row_line-Lacks c h =
    let no_newline = λ (x : ℕ). x ≢ b'\n' in
    All-append no_newline c.subsys _ (IsGraphic-Lacks b'\n' c.subsys (omega arith) h.name_graphic) (
      omega arith,
      All-append no_newline (format_int c.hierarchy) _
          (IsGraphic-Lacks b'\n' (format_int c.hierarchy) (omega arith)
            (format_int-IsGraphic c.hierarchy))
          (
            omega arith,
            All-append no_newline (format_int c.num_cgroups) (b'\t' ∷ digit_of c.enabled)
                (IsGraphic-Lacks b'\n' (format_int c.num_cgroups) (omega arith)
                  (format_int-IsGraphic c.num_cgroups))
                (omega arith, digit_of-Lacks c.enabled),
          ),
    )

table_rows-cons :
    (l : Bytes) (ls : List Bytes) (c : CGroupSubsystem) (cs : List CGroupSubsystem)
    → l ≢ []
    → extract_row (fields l) ≡ ok c
    → table_rows extract_row ls ≡ ok cs
    → table_rows extract_row (l ∷ ls) ≡ ok (c ∷ cs)
unfolding table_rows
table_rows-cons [] ls c cs n e es = absurd (n refl)
table_rows-cons (a ∷ l) ls c cs n e es = rw (e, es) refl

line_not_nil : (s : Bytes) (c : ℕ) (t : Bytes) → s ++ c ∷ t ≢ []
line_not_nil [] c t e = cc
line_not_nil (a ∷ s) c t e = cc

table_rows-rows :
    (cs : List CGroupSubsystem)
    → All IsSubsystem cs
    → table_rows extract_row (split b'\n' (rows cs)) ≡ ok cs
unfolding table_rows split
table_rows-rows [] h = refl
table_rows-rows (c ∷ cs) (h, hs) =
    ap (table_rows extract_row) (split-append b'\n' (row_line c) (rows cs) (row_line-Lacks c h))
    ∙ table_rows-cons (row_line c) (split b'\n' (rows cs)) c cs (line_not_nil c.subsys b'\t' _)
        (extract_row-line c h) (table_rows-rows cs hs)

header-columns : fields (trim_left b'#' header) ≡ expected_columns
unfolding fields trim_left is_ascii_space
header-columns = refl

header-Lacks : Lacks b'\n' header
header-Lacks = ground arith

table-header : (ls : List Bytes) → table (header ∷ ls) ≡ table_rows extract_row ls
unfolding row_reader equal_lists equal
table-header ls = rw (header-columns) refl

-- A /proc/cgroups as the kernel writes it is read back: each subsystem's name, hierarchy, number of cgroups
-- and whether it is enabled, in order.
pub parse_cg_subsystems-file :
    (cs : List CGroupSubsystem) → All IsSubsystem cs → parse_cg_subsystems (cgroups_file cs) ≡ ok cs
unfolding parse_cg_subsystems
parse_cg_subsystems-file cs h =
    ap table (split-append b'\n' header (rows cs) header-Lacks)
    ∙ table-header (split b'\n' (rows cs))
    ∙ table_rows-rows cs h
