-- ===== src/Pparser/Parse.antt =====
-- `Parse` of pparser/proc_human_parser.go.
use procstats.Base.{ℕ, ◌*◌, ◌%◌, ◌^◌, List, [], ◌∷◌, Option, none, some, Bytes, codes}
use procstats.Base.Int.{pos, ◌*ℤ◌, wrap64}
use procstats.Go.Float.{Float64}
use procstats.Go.Spaces.{trim_space}
use procstats.Go.Strconv.{parse_int, parse_uint}
use procstats.Go.Strings.{cut, lines, strip_suffix}
use procstats.Pparser.Index.{LineKvFileParser}
use procstats.Pparser.Setters.{
  cannot_split, bad_number, unhandled_kind, Outcome, done, failed, field_kind, set_int_field,
  set_uint_field, set_float_field, set_string_field,
}
use procstats.Pparser.Types.{Arm, signed, unsigned, floating, text, unhandled, arm, Struct}

-- The text without its unit, and what the unit stands for.
unfoldable pub trim_string_with_multiplier : Bytes → Bytes × ℕ
unfolding strip_suffix
trim_string_with_multiplier s = elim (strip_suffix (codes "kB") s) [
  | none ↦ (s, 1)
  | some r ↦ (trim_space r, 1024)
]

module _ (fl : Float64) where
  open fl use {Carrier, of_int, mul, parse_float}

  -- A number that was parsed goes on to `store`; an error ends `Parse`.
  abbrev pub with_parsed :
      {V : Type 0} → Option V → Struct Carrier → (V → Outcome Carrier) → Outcome Carrier
  with_parsed none out store = failed bad_number out
  with_parsed (some v) out store = store v

  -- The cases of the switch, on the trimmed text and its multiplier. The products wrap around.
  unfoldable pub parse_signed :
      LineKvFileParser → Bytes → Bytes × ℕ → Struct Carrier → Outcome Carrier
  parse_signed p name (s, m) out =
      with_parsed (parse_int 64 s) out (λ v. set_int_field fl p name (wrap64 (v *ℤ pos m)) out)

  unfoldable pub parse_unsigned :
      LineKvFileParser → Bytes → Bytes × ℕ → Struct Carrier → Outcome Carrier
  parse_unsigned p name (s, m) out =
      with_parsed (parse_uint 10 64 s) out (λ v. set_uint_field fl p name (v * m % 2 ^ 64) out)

  unfoldable pub parse_floating :
      LineKvFileParser → Bytes → Bytes × ℕ → Struct Carrier → Outcome Carrier
  parse_floating p name (s, m) out =
      with_parsed (parse_float s) out (λ v. set_float_field fl p name (mul v (of_int (pos m))) out)

  unfoldable pub parse_value :
      LineKvFileParser → Arm → Bytes → Bytes → Struct Carrier → Outcome Carrier
  unfolding parse_signed parse_unsigned parse_floating
  parse_value p (signed _) name s out = parse_signed p name (trim_string_with_multiplier s) out
  parse_value p (unsigned _) name s out = parse_unsigned p name (trim_string_with_multiplier s) out
  parse_value p (floating _) name s out = parse_floating p name (trim_string_with_multiplier s) out
  parse_value p text name s out = set_string_field fl p name s out
  parse_value p unhandled name s out = failed unhandled_kind out

  -- One round of the loop, on a line that still has its newline.
  unfoldable pub parse_line : LineKvFileParser → Bytes → Struct Carrier → Outcome Carrier
  unfolding parse_value
  parse_line p line out = elim (cut p.split_key line) [
    | none ↦ failed cannot_split out
    | some (name, rest) ↦ parse_value p (arm (field_kind p name)) name (trim_space rest) out
  ]

  unfoldable pub parse_lines : LineKvFileParser → List Bytes → Struct Carrier → Outcome Carrier
  unfolding parse_line
  parse_lines p [] out = done out
  parse_lines p (l ∷ ls) out = elim (parse_line p l out) [
    | failed e out' ↦ failed e out'
    | done out' ↦ parse_lines p ls out'
  ]

  -- `Parse(contentBytes, out)`; the error behind the loop is always `io.EOF`.
  unfoldable pub parse : LineKvFileParser → Bytes → Struct Carrier → Outcome Carrier
  unfolding parse_lines
  parse p content out = parse_lines p (lines content) out
