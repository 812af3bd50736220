-- ===== src/Pparser/Dict/Lines.antt =====
-- The lines of a file as entries of a dictionary: an abstract reading, without structs and their index.
use procstats.Base.{
  ℕ, ◌*◌, ◌%◌, ◌^◌, Bool, true, false, List, [], ◌∷◌, Option, none, some, Bytes, codes, ltb, not,
}
use procstats.Base.Int.{pos, fits_int, ◌*ℤ◌, wrap64}
use procstats.Go.Float.{Float64}
use procstats.Go.Spaces.{trim_space}
use procstats.Go.Strconv.{parse_int, parse_uint}
use procstats.Go.Strings.{cut, lines, strip_suffix}
use procstats.Pparser.Dict.{Dict}
use procstats.Pparser.Dict.Setters.{write}
use procstats.Pparser.Types.{
  Arm, signed, unsigned, floating, text, arm, Kind, Scalar, int_value, uint_value, float_value,
  string_value,
}

-- The text in front of the unit, and how many units of one it counts.
unfoldable pub with_unit : Bytes → Bytes × ℕ
unfolding strip_suffix
with_unit s = elim (strip_suffix (codes "kB") s) [
  | none ↦ (s, 1)
  | some number ↦ (trim_space number, 2 ^ 10)
]

module _ (fl : Float64) where
  open fl use {Carrier, of_int, mul, parse_float, overflow_float}

  -- A value that its field cannot hold is no value.
  abbrev pub held : Bool → Scalar Carrier → Option (Scalar Carrier)
  held true v = some v
  held false v = none

  -- The value of a number with its unit, as a field of this arm holds it: the product as an int64 or a
  -- uint64, into which it wraps around, if it has the field's bits.
  abbrev pub number_value : Arm → Bytes × ℕ → Option (Scalar Carrier)
  number_value (signed b) (r, m) = elim (parse_int 64 r) [
    | none ↦ none
    | some v ↦ held (fits_int b (wrap64 (v *ℤ pos m))) (int_value (wrap64 (v *ℤ pos m)))
  ]
  number_value (unsigned b) (r, m) = elim (parse_uint 10 64 r) [
    | none ↦ none
    | some v ↦ held (ltb (v * m % 2 ^ 64) (2 ^ b)) (uint_value (v * m % 2 ^ 64))
  ]
  number_value (floating b) (r, m) = elim (parse_float r) [
    | none ↦ none
    | some v ↦
        held (not (overflow_float b (mul v (of_int (pos m)))))
          (float_value (mul v (of_int (pos m))))
  ]
  number_value _ _ = none

  -- The value of a text, already trimmed.
  abbrev pub value_of : Arm → Bytes → Option (Scalar Carrier)
  value_of text s = some (string_value s)
  value_of a s = number_value a (with_unit s)

  abbrev pub named : Bytes → Option (Scalar Carrier) → Option (Bytes × Scalar Carrier)
  named name none = none
  named name (some v) = some (name, v)

  module _ (split_key : Bytes) (kind_of_name : Bytes → Kind) where
    -- The entry of a line: the name in front of the separator, and the value behind it.
    abbrev pub entry_of : Option (Bytes × Bytes) → Option (Bytes × Scalar Carrier)
    entry_of none = none
    entry_of (some (name, rest)) = named name (value_of (arm (kind_of_name name)) (trim_space rest))

    unfoldable pub entry : Bytes → Option (Bytes × Scalar Carrier)
    entry line = entry_of (cut split_key line)

    -- The dictionary after the lines, and whether all of them are entries; the first that is none ends
    -- the reading.
    unfoldable pub read_lines : List Bytes → Dict Carrier → Dict Carrier × Bool
    unfolding entry
    read_lines [] d = (d, true)
    read_lines (l ∷ ls) d = elim (entry l) [
      | none ↦ (d, false)
      | some (name, v) ↦ read_lines ls (write d name v)
    ]

    -- The dictionary that a file adds to another.
    unfoldable pub read_dict : Bytes → Dict Carrier → Dict Carrier × Bool
    unfolding read_lines
    read_dict content d = read_lines (lines content) d
