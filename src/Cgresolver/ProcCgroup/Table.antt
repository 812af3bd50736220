-- ===== src/Cgresolver/ProcCgroup/Table.antt =====
-- `parseCGSubsystems` of cgresolver/proc_cgroup.go: the table of /proc/cgroups.
use procstats.Base.{
  ℕ, suc, Bool, true, List, [], ◌∷◌, Option, none, some, leb, ◌==◌, if◌then◌else◌, Bytes, codes,
  equal, length, get_elem?, Result, ok, err, ◌>>=◌, require, check,
}
use procstats.Base.Int.{ℤ, pos}
use procstats.Cgresolver.ProcCgroup.{
  Error, few_headers, wrong_columns, bad_number, bad_enabled, duplicate_column, missing_column,
  out_of_range, equal_lists,
}
use procstats.Go.Spaces.{fields}
use procstats.Go.Strconv.{parse_int, parse_bool}
use procstats.Go.Strings.{split, trim_left, lower}

pub record CGroupSubsystem : Type 0 where
  pub subsys : Bytes
  pub hierarchy : ℤ
  pub num_cgroups : ℤ
  pub enabled : Bool

-- The columns of a table; `none` is a column that is missing.
pub record Columns : Type 0 where
  pub subsys_col : Option ℕ
  pub hier_col : Option ℕ
  pub n_cg_col : Option ℕ
  pub enabled_col : Option ℕ

abbrev pub expected_columns : List Bytes
expected_columns =
    codes "subsys_name" ∷ codes "hierarchy" ∷ codes "num_cgroups" ∷ codes "enabled" ∷ []

-- A column is found at `i`, and must not have been found before.
abbrev pub found : ℕ → Option ℕ → Result Error (Option ℕ)
found i none = ok (some i)
found i (some _) = err duplicate_column

unfoldable pub find_column : ℕ → Bytes → Columns → Result Error Columns
find_column i head c =
    if equal head (codes "subsys_name")
    then found i c.subsys_col >>= (λ o. ok (record c { subsys_col = o }))
    else if equal head (codes "hierarchy")
    then found i c.hier_col >>= (λ o. ok (record c { hier_col = o }))
    else if equal head (codes "num_cgroups")
    then found i c.n_cg_col >>= (λ o. ok (record c { n_cg_col = o }))
    else if equal head (codes "enabled")
    then found i c.enabled_col >>= (λ o. ok (record c { enabled_col = o }))
    else ok c

unfoldable pub find_columns : ℕ → List Bytes → Columns → Result Error Columns
unfolding find_column
find_columns i [] c = ok c
find_columns i (h ∷ hs) c = do c' ← find_column i (lower h) c; find_columns (suc i) hs c'

-- The value in a column.
abbrev pub value_at : List Bytes → ℕ → Result Error Bytes
value_at vals i = require (get_elem? vals i) out_of_range

abbrev pub number_at : List Bytes → ℕ → Result Error ℤ
number_at vals i = value_at vals i >>= (λ v. require (parse_int 64 v) bad_number)

abbrev pub bool_at : List Bytes → ℕ → Result Error Bool
bool_at vals i = value_at vals i >>= (λ v. require (parse_bool v) bad_enabled)

-- A column that may be missing, with the value that it then has.
abbrev pub optional_at :
    {A : Type 0} → (List Bytes → ℕ → Result Error A) → List Bytes → Option ℕ → A → Result Error A
optional_at get vals none d = ok d
optional_at get vals (some i) d = get vals i

-- `extractRow` of the common layout.
unfoldable pub extract_row : List Bytes → Result Error CGroupSubsystem
extract_row vals = do
  passed ← check (length vals == 4) wrong_columns
  hier_num ← number_at vals 1
  num_cg ← number_at vals 2
  is_enabled ← bool_at vals 3
  name ← value_at vals 0
  ok (record { subsys = name; hierarchy = hier_num; num_cgroups = num_cg; enabled = is_enabled })

-- `extractRow` of another layout, for the columns that were found.
unfoldable pub extract_remapped : ℕ → ℕ → ℕ → Columns → List Bytes → Result Error CGroupSubsystem
extract_remapped width subsys_col hier_col c vals = do
  passed ← check (length vals == width) wrong_columns
  hier_num ← number_at vals hier_col
  name ← value_at vals subsys_col
  num_cg ← optional_at number_at vals c.n_cg_col (pos 0)
  is_enabled ← optional_at bool_at vals c.enabled_col true
  ok (record { subsys = name; hierarchy = hier_num; num_cgroups = num_cg; enabled = is_enabled })

-- The columns that no row can do without.
abbrev pub critical : Columns → Option (ℕ × ℕ)
critical c = elim c.subsys_col [
  | none ↦ none
  | some s ↦ elim c.hier_col [ none ↦ none | some h ↦ some (s, h) ]
]

unfoldable pub row_reader : List Bytes → Result Error (List Bytes → Result Error CGroupSubsystem)
unfolding find_columns extract_row extract_remapped
row_reader headers = if equal_lists expected_columns headers then ok extract_row else do
  c ←
      find_columns 0 headers
        (record { subsys_col = none; hier_col = none; n_cg_col = none; enabled_col = none })
  (s, h) ← require (critical c) missing_column
  ok (extract_remapped (length headers) s h c)

unfoldable pub table_rows :
    (List Bytes → Result Error CGroupSubsystem) → List Bytes → Result Error (List CGroupSubsystem)
table_rows read [] = ok []
table_rows read ([] ∷ ls) = table_rows read ls
table_rows read ((c ∷ l) ∷ ls) = do
  row ← read (fields (c ∷ l))
  rows ← table_rows read ls
  ok (row ∷ rows)

abbrev pub table : List Bytes → Result Error (List CGroupSubsystem)
table [] = err few_headers
table (head ∷ ls) =
    let headers = fields (trim_left b'#' head) in
    do
      passed ← check (leb 2 (length headers)) few_headers
      read ← row_reader headers
      table_rows read ls

-- `parseCGSubsystems`
unfoldable pub parse_cg_subsystems : Bytes → Result Error (List CGroupSubsystem)
unfolding row_reader table_rows
parse_cg_subsystems proc_cgroups = table (split b'\n' proc_cgroups)
