-- ===== src/Pparser/Dict/Render.antt =====
-- Files of key-value lines as the kernel writes them, and the dictionary that is read from them.
use mathlib.Core.Option
use mathlib.Core.List.{reverse-append, reverse-reverse}
use procstats.Base.{
  ℕ, ◌≡◌, ◌≢◌, refl, ap, ◌∙◌, Bool, true, false, List, [], ◌∷◌, ◌++◌, reverse, Option, none, some,
  arith, Bytes, codes, All, append_assoc, All-append,
}
use procstats.Base.Int.{ℤ, pos, negsuc, fits_int, ◌*ℤ◌, wrap64, IsInt64, wrap64-eq_of_IsInt64}
use procstats.Go.Float.{Float64}
use procstats.Go.Spaces.Trim.{
  IsSpace, IsTrimmed, trim_space-append, newline-IsSpace, IsGraphic-IsTrimmed,
}
use procstats.Go.Spaces.{is_ascii_space, trim_space}
use procstats.Go.Strconv.Decimal.{IsDigit, parse_int-format_int}
use procstats.Go.Strconv.Text.{
  format_int-IsGraphic, IsGraphic-Lacks, format_int_not_nil, format_int-EndsInDigit,
}
use procstats.Go.Strconv.{format_int}
use procstats.Go.Strings.Cut.{Lacks}
use procstats.Go.Strings.{lines, strip_suffix, strip_prefix}
use procstats.Pparser.Dict.Lines.{held, with_unit, number_value, value_of, read_lines, read_dict}
use procstats.Pparser.Dict.Rows.{Row, IsRow, lines-row, row_value, entry-row}
use procstats.Pparser.Dict.Setters.{write}
use procstats.Pparser.Dict.{Dict}
use procstats.Pparser.Types.{signed, arm, Kind, Scalar, int_value}

-- A line for a number: its name, white space behind the separator, and whether it counts kB.
pub record Item : Type 0 where
  pub name : Bytes
  pub space : Bytes
  pub number : ℤ
  pub kilo : Bool

-- What the unit stands for.
abbrev pub unit : Bool → ℕ
unit true = 1024
unit false = 1

abbrev pub number_text : Bool → ℤ → Bytes
number_text true z = format_int z ++ codes " kB"
number_text false z = format_int z

-- The number in units of one.
abbrev pub amount : Item → ℤ
amount i = i.number *ℤ pos (unit i.kilo)

-- The line, without its newline; `k` is the separator.
abbrev pub item_line : ℕ → Item → Bytes
item_line k i = i.name ++ k ∷ (i.space ++ number_text i.kilo i.number)

abbrev pub render : ℕ → List Item → Bytes
render k [] = []
render k (i ∷ is) = item_line k i ++ b'\n' ∷ render k is

-- A line that the kernel writes: the name has no separator, nothing has a newline, and the amount is
-- an int64.
pub record IsItem (k : ℕ) (i : Item) : Type 0 where
  pub name_key : Lacks k i.name
  pub name_line : Lacks b'\n' i.name
  pub space_space : All IsSpace i.space
  pub space_line : Lacks b'\n' i.space
  pub number_fits : IsInt64 i.number
  pub amount_fits : IsInt64 (amount i)

reverse_kilo : (s : Bytes) → reverse (s ++ codes " kB") ≡ b'B' ∷ b'k' ∷ b' ' ∷ reverse s
reverse_kilo s = reverse-append s (codes " kB")

strip_prefix_kilo : (s : Bytes) → strip_prefix (codes "Bk") (b'B' ∷ b'k' ∷ s) ≡ some s
unfolding strip_prefix
strip_prefix_kilo s = refl

kilo_suffix : (s : Bytes) → strip_suffix (codes "kB") (s ++ codes " kB") ≡ some (s ++ codes " ")
unfolding strip_suffix
kilo_suffix s =
    ap (λ t. Option.map reverse (strip_prefix (codes "Bk") t)) (reverse_kilo s)
    ∙ ap (Option.map reverse) (strip_prefix_kilo (b' ' ∷ reverse s))
    ∙ ap some
        (reverse-append (b' ' ∷ []) (reverse s) ∙ ap (λ t. t ++ codes " ") (reverse-reverse s))

strip_prefix_digit : (c : ℕ) (r : Bytes) → IsDigit c → strip_prefix (codes "Bk") (c ∷ r) ≡ none
unfolding strip_prefix
strip_prefix_digit c r h = ground arith

digit_suffix : (z : ℤ) → strip_suffix (codes "kB") (format_int z) ≡ none
unfolding strip_suffix
digit_suffix z =
    let (c, r, e, h) = format_int-EndsInDigit z in
    ap (λ t. Option.map reverse (strip_prefix (codes "Bk") t)) e
    ∙ ap (Option.map reverse) (strip_prefix_digit c r h)

format_int-IsTrimmed : (z : ℤ) → IsTrimmed (format_int z)
format_int-IsTrimmed z =
    IsGraphic-IsTrimmed (format_int z) (format_int_not_nil z) (format_int-IsGraphic z)

kilo-IsTrimmed : (z : ℤ) → IsTrimmed (format_int z ++ codes " kB")
kilo-IsTrimmed z =
    let t = format_int-IsTrimmed z in
    record {
      first = t.first;
      after = t.after ++ codes " kB";
      begins = ap (λ s. s ++ codes " kB") t.begins;
      first_graphic = t.first_graphic;
      last = b'B';
      before = b'k' ∷ b' ' ∷ reverse (format_int z);
      ends = reverse_kilo (format_int z);
      last_graphic = omega arith;
    }

blank-IsSpace : All IsSpace (codes " ")
unfolding is_ascii_space
blank-IsSpace = (refl, tt)

trim_space_behind : (z : ℤ) → trim_space (format_int z ++ codes " ") ≡ format_int z
trim_space_behind z =
    trim_space-append [] (format_int z) (codes " ") tt (format_int-IsTrimmed z) blank-IsSpace

trim-kilo : (z : ℤ) → with_unit (format_int z ++ codes " kB") ≡ (format_int z, 1024)
unfolding with_unit
trim-kilo z =
    let body : Option Bytes → Bytes × ℕ =
      λ o. elim o [ none ↦ (format_int z ++ codes " kB", 1) | some r ↦ (trim_space r, 1024) ] in
    ap body (kilo_suffix (format_int z)) ∙ ap (λ r. (r, 1024)) (trim_space_behind z)

trim-plain : (z : ℤ) → with_unit (format_int z) ≡ (format_int z, 1)
unfolding with_unit
trim-plain z =
    let body : Option Bytes → Bytes × ℕ =
      λ o. elim o [ none ↦ (format_int z, 1) | some r ↦ (trim_space r, 1024) ] in
    ap body (digit_suffix z)

number_text-IsTrimmed : (k : Bool) (z : ℤ) → IsTrimmed (number_text k z)
number_text-IsTrimmed true z = kilo-IsTrimmed z
number_text-IsTrimmed false z = format_int-IsTrimmed z

trim-number_text : (k : Bool) (z : ℤ) → with_unit (number_text k z) ≡ (format_int z, unit k)
trim-number_text true z = trim-kilo z
trim-number_text false z = trim-plain z

fits_int64 : (z : ℤ) → IsInt64 z → fits_int 64 z ≡ true
fits_int64 (pos n) h = ground arith
fits_int64 (negsuc n) h = ground arith

number_text-Lacks : (k : Bool) (z : ℤ) → Lacks b'\n' (number_text k z)
number_text-Lacks true z =
    All-append (λ c. c ≢ b'\n') (format_int z) (codes " kB")
      (IsGraphic-Lacks b'\n' (format_int z) (omega arith) (format_int-IsGraphic z))
      (omega arith, (omega arith, (omega arith, tt)))
number_text-Lacks false z =
    IsGraphic-Lacks b'\n' (format_int z) (omega arith) (format_int-IsGraphic z)

-- The line with the text behind its separator.
abbrev pub as_row : Item → Row
as_row i = record { name = i.name; rest = i.space ++ number_text i.kilo i.number }

pub as_row-IsRow : (k : ℕ) (i : Item) → IsItem k i → IsRow k (as_row i)
as_row-IsRow k i h = record {
  name_key = h.name_key;
  name_line = h.name_line;
  rest_line =
      All-append (λ c. c ≢ b'\n') i.space (number_text i.kilo i.number) h.space_line
        (number_text-Lacks i.kilo i.number);
}

-- The text that is left of it.
pub trim_space-rest :
    (k : ℕ) (i : Item)
    → IsItem k i
    → trim_space ((as_row i).rest ++ codes "\n") ≡ number_text i.kilo i.number
trim_space-rest k i h =
    let text = number_text i.kilo i.number in
    ap trim_space (append_assoc i.space text (codes "\n"))
    ∙ trim_space-append i.space text (codes "\n") h.space_space
        (number_text-IsTrimmed i.kilo i.number) newline-IsSpace

module _ (fl : Float64) where
  number_value-item :
      (z : ℤ) (m : ℕ)
      → IsInt64 z
      → IsInt64 (z *ℤ pos m)
      → number_value fl (signed 64) (format_int z, m) ≡ some (int_value (z *ℤ pos m))
  number_value-item z m h g =
      let body : Option ℤ → Option (Scalar fl.Carrier) = λ o. elim o [
        | none ↦ none
        | some v ↦ held fl (fits_int 64 (wrap64 (v *ℤ pos m))) (int_value (wrap64 (v *ℤ pos m)))
      ] in
      ap body (parse_int-format_int z h)
      ∙ rw (wrap64-eq_of_IsInt64 (z *ℤ pos m) g, fits_int64 (z *ℤ pos m) g) refl

  -- The value of a line is its amount.
  pub row_value-item :
      (k : ℕ) (kinds : Bytes → Kind) (i : Item)
      → arm (kinds i.name) ≡ signed 64
      → IsItem k i
      → row_value fl k kinds (as_row i) ≡ some (int_value (amount i))
  row_value-item k kinds i e h =
      ap (λ t. value_of fl (arm (kinds i.name)) t) (trim_space-rest k i h)
      ∙ ap (λ a. value_of fl a (number_text i.kilo i.number)) e
      ∙ ap (number_value fl (signed 64)) (trim-number_text i.kilo i.number)
      ∙ number_value-item i.number (unit i.kilo) h.number_fits h.amount_fits

  -- The dictionary after the lines, the last line of a name being what it has.
  abbrev pub written : List Item → Dict fl.Carrier → Dict fl.Carrier
  written [] d = d
  written (i ∷ is) d = written is (write d i.name (int_value (amount i)))

  pub read_dict-render :
      (k : ℕ) (kinds : Bytes → Kind) (is : List Item) (d : Dict fl.Carrier)
      → k ≢ b'\n'
      → All (λ i. IsItem k i × (arm (kinds i.name) ≡ signed 64)) is
      → read_dict fl (k ∷ []) kinds (render k is) d ≡ (written is d, true)
  unfolding read_dict read_lines lines
  read_dict-render k kinds [] d n h = refl
  read_dict-render k kinds (i ∷ is) d n ((h, e), hs) =
      let row = as_row-IsRow k i h in
      ap (λ ls. read_lines fl (k ∷ []) kinds ls d) (lines-row k (as_row i) (render k is) n row)
      ∙ rw (entry-row fl k kinds (as_row i) row, row_value-item k kinds i e h, read_lines)
          (read_dict-render k kinds is (write d i.name (int_value (amount i))) n hs)
