-- ===== src/Pparser/Dict/Rows.antt =====
-- Files of key-value lines with any text behind the separator, and the dictionary that is read from
-- them.
use procstats.Base.{
  ℕ, ◌≡◌, ◌≢◌, refl, ap, ◌∙◌, true, List, [], ◌∷◌, ◌++◌, Option, none, some, Bytes, codes, All,
  append_assoc, All-append, equal_refl, inl, inr,
}
use procstats.Go.Float.{Float64}
use procstats.Go.Spaces.{trim_space}
use procstats.Go.Strings.Cut.{Lacks, lines-append, cut-append}
use procstats.Go.Strings.{lines, cut}
use procstats.Pparser.Dict.Lines.{value_of, named, entry_of, entry, read_lines, read_dict}
use procstats.Pparser.Dict.Setters.{write, Bytes-cases}
use procstats.Pparser.Dict.{Dict}
use procstats.Pparser.Types.{arm, Kind, Scalar}

pub record Row : Type 0 where
  pub name : Bytes
  pub rest : Bytes

-- The line, without its newline; `k` is the separator.
abbrev pub row_line : ℕ → Row → Bytes
row_line k r = r.name ++ k ∷ r.rest

abbrev pub rows_text : ℕ → List Row → Bytes
rows_text k [] = []
rows_text k (r ∷ rs) = row_line k r ++ b'\n' ∷ rows_text k rs

-- The name has no separator, and nothing has a newline.
pub record IsRow (k : ℕ) (r : Row) : Type 0 where
  pub name_key : Lacks k r.name
  pub name_line : Lacks b'\n' r.name
  pub rest_line : Lacks b'\n' r.rest

pub lines-row :
    (k : ℕ) (r : Row) (s : Bytes)
    → k ≢ b'\n'
    → IsRow k r
    → lines (row_line k r ++ b'\n' ∷ s) ≡ (row_line k r ++ b'\n' ∷ []) ∷ lines s
lines-row k r s n h =
    lines-append (row_line k r) s
      (All-append (λ c. c ≢ b'\n') r.name (k ∷ r.rest) h.name_line (n, h.rest_line))

module _ (fl : Float64) (k : ℕ) (kinds : Bytes → Kind) where
  open fl use {Carrier}

  -- What is read from the line.
  abbrev pub row_value : Row → Option (Scalar Carrier)
  row_value r = value_of fl (arm (kinds r.name)) (trim_space (r.rest ++ codes "\n"))

  -- A line whose value its field can hold.
  abbrev pub Reads : Row → Type 0
  Reads r = IsRow k r × ((v : Scalar Carrier) × (row_value r ≡ some v))

  pub entry-row :
      (r : Row)
      → IsRow k r
      → entry fl (k ∷ []) kinds (row_line k r ++ codes "\n") ≡ named fl r.name (row_value r)
  unfolding entry
  entry-row r h = ap (entry_of fl (k ∷ []) kinds) (
      ap (cut (k ∷ [])) (append_assoc r.name (k ∷ r.rest) (codes "\n"))
      ∙ cut-append k r.name (r.rest ++ codes "\n") h.name_key)

  -- The dictionary after the lines.
  abbrev pub rows_dict : List Row → Dict Carrier → Dict Carrier
  rows_dict [] d = d
  rows_dict (r ∷ rs) d = elim (row_value r) [ none ↦ d | some v ↦ rows_dict rs (write d r.name v) ]

  pub read_dict-rows :
      (rs : List Row) (d : Dict Carrier)
      → k ≢ b'\n'
      → All Reads rs
      → read_dict fl (k ∷ []) kinds (rows_text k rs) d ≡ (rows_dict rs d, true)
  unfolding read_dict read_lines lines
  read_dict-rows [] d n h = refl
  read_dict-rows (r ∷ rs) d n ((h, (v, e)), hs) =
      ap (λ ls. read_lines fl (k ∷ []) kinds ls d) (lines-row k r (rows_text k rs) n h)
      ∙ rw (entry-row r h, e, read_lines, rows_dict) (read_dict-rows rs (write d r.name v) n hs)

  -- Lines of other names do not change what a name has.
  pub rows_dict_other :
      (rs : List Row) (d : Dict Carrier) (n : Bytes)
      → All Reads rs
      → All (λ r. r.name ≢ n) rs
      → rows_dict rs d n ≡ d n
  rows_dict_other [] d n h o = refl
  rows_dict_other (r ∷ rs) d n ((h, (v, e)), hs) (o, os) = elim (Bytes-cases r.name n) [
    | inl s ↦ absurd (o s)
    | inr (_, f) ↦ rw (e, rows_dict) (rows_dict_other rs (write d r.name v) n hs os ∙ rw f refl)
  ]

  -- A name has the value of its last line.
  pub rows_dict_last :
      (before : List Row) (r : Row) (after : List Row) (d : Dict Carrier) (v : Scalar Carrier)
      → All Reads before
      → row_value r ≡ some v
      → All Reads after
      → All (λ x. x.name ≢ r.name) after
      → rows_dict (before ++ r ∷ after) d r.name ≡ some v
  rows_dict_last [] r after d v hb e ha o =
      rw (e, rows_dict)
        (rows_dict_other after (write d r.name v) r.name ha o ∙ rw (equal_refl r.name) refl)
  rows_dict_last (b ∷ before) r after d v ((h, (w, e')), hb) e ha o =
      rw (e', rows_dict) (rows_dict_last before r after (write d b.name w) v hb e ha o)
