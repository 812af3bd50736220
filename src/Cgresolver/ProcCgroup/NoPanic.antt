-- ===== src/Cgresolver/ProcCgroup/NoPanic.antt =====
-- `parseCGSubsystems` never indexes behind the end of a row.
use mathlib.Core.Path.{subst}
use procstats.Base.{
  ℕ, ◌<◌, ◌+◌, ◌≡◌, ◌≢◌, Bool, true, false, List, [], ◌∷◌, Option, none, some, arith, if◌then◌else◌,
  Bytes, length, leb, Result, ok, err, ◌>>=◌, require, check,
}
use procstats.Cgresolver.ProcCgroup.Range.{
  Within, Any, Below, AllBelow, bind-Within, check-Within, extract_row-Within,
  extract_remapped-Within, find_columns-Within,
}
use procstats.Cgresolver.ProcCgroup.Table.{
  CGroupSubsystem, Columns, expected_columns, find_columns, extract_row, extract_remapped, critical,
  row_reader, table_rows, table, parse_cg_subsystems,
}
use procstats.Cgresolver.ProcCgroup.{Error, few_headers, missing_column, out_of_range, equal_lists}
use procstats.Go.Spaces.{fields}
use procstats.Go.Strings.{split, trim_left}

-- A reader of rows that never reads behind the end of one.
abbrev IsReader : (List Bytes → Result Error CGroupSubsystem) → Type 0
IsReader read = (vals : List Bytes) → Within Any (read vals)

-- The columns that are critical are among the first `n`.
abbrev BothBelow : ℕ → ℕ × ℕ → Type 0
BothBelow n (s, h) = (s < n) × (h < n)

critical-Within :
    (n : ℕ) (c : Columns)
    → AllBelow n c
    → Within (BothBelow n) (require (critical c) missing_column)
critical-Within n c (bs, bh, _, _) = of_columns c.subsys_col c.hier_col bs bh
  where
    of_columns :
        (s h : Option ℕ)
        → Below n s
        → Below n h
        → Within (BothBelow n) (
            require
              (elim s as (λ _. Option (ℕ × ℕ)) [
                | none ↦ none
                | some s ↦ elim h as (λ _. Option (ℕ × ℕ)) [ none ↦ none | some h ↦ some (s, h) ]
              ])
              missing_column)
    of_columns none h bs bh = λ e. cc
    of_columns (some s) none bs bh = λ e. cc
    of_columns (some s) (some h) bs bh = (bs, bh)

row_reader-Within : (headers : List Bytes) → Within IsReader (row_reader headers)
unfolding row_reader
row_reader-Within headers = by_layout (equal_lists expected_columns headers)
  where
    start : Columns
    start = record { subsys_col = none; hier_col = none; n_cg_col = none; enabled_col = none }

    remapped : Within IsReader (
        find_columns 0 headers start >>= (λ c.
          require (critical c) missing_column
          >>= (λ p. ok (extract_remapped (length headers) p.0 p.1 c))))
    remapped =
        let e : 0 + length headers ≡ length headers = omega arith in
        bind-Within (AllBelow (length headers)) IsReader (find_columns 0 headers start) _
          (subst (λ n. Within (AllBelow n) (find_columns 0 headers start)) e
            (find_columns-Within 0 headers start (tt, tt, tt, tt)))
          (λ c below.
            bind-Within (BothBelow (length headers)) IsReader (require (critical c) missing_column)
              _ (critical-Within (length headers) c below)
              (λ p both vals.
                extract_remapped-Within (length headers) p.0 p.1 c vals both.0 both.1 below))

    by_layout :
        (b : Bool)
        → Within IsReader (
            if b
            then ok extract_row
            else (find_columns 0 headers start >>= (λ c.
                require (critical c) missing_column
                >>= (λ p. ok (extract_remapped (length headers) p.0 p.1 c)))))
    by_layout true = extract_row-Within
    by_layout false = remapped

table_rows-Within :
    (read : List Bytes → Result Error CGroupSubsystem) (ls : List Bytes)
    → IsReader read
    → Within Any (table_rows read ls)
unfolding table_rows
table_rows-Within read [] h = tt
table_rows-Within read ([] ∷ ls) h = table_rows-Within read ls h
table_rows-Within read ((c ∷ l) ∷ ls) h =
    bind-Within Any Any (read (fields (c ∷ l))) _ (h (fields (c ∷ l))) (λ row _.
      bind-Within Any Any (table_rows read ls) _ (table_rows-Within read ls h) (λ rows _. tt))

table-Within : (ls : List Bytes) → Within Any (table ls)
table-Within [] = λ e. cc
table-Within (head ∷ ls) =
    let headers = fields (trim_left b'#' head) in
    bind-Within (λ _. leb 2 (length headers) ≡ true) Any
      (check (leb 2 (length headers)) few_headers) _
      (check-Within (leb 2 (length headers)) few_headers (λ e. cc))
      (λ _ _.
        bind-Within IsReader Any (row_reader headers) _ (row_reader-Within headers)
          (λ read h. table_rows-Within read ls h))

Within-ne : {A : Type 0} (r : Result Error A) → Within Any r → r ≢ err out_of_range
Within-ne (ok a) h = λ e. cc
Within-ne (err e) h = λ q. h (cc)

-- `parseCGSubsystems` never indexes a row behind its end, whatever the text and the layout of its columns.
pub parse_cg_subsystems_safe : (content : Bytes) → parse_cg_subsystems content ≢ err out_of_range
unfolding parse_cg_subsystems
parse_cg_subsystems_safe content =
    Within-ne (table (split b'\n' content)) (table-Within (split b'\n' content))
