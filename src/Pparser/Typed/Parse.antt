-- ===== src/Pparser/Typed/Parse.antt =====
-- `Parse` of pparser/proc_human_parser.go keeps a struct well typed and reaches no panic.
use procstats.Base.{
  ℕ, ◌*◌, ◌%◌, ◌^◌, ◌≡◌, refl, false, List, [], ◌∷◌, Option, none, some, arith, Bytes, inl, inr,
  Option-cases,
}
use procstats.Base.Int.{ℤ, pos, ◌*ℤ◌, wrap64}
use procstats.Go.Float.{Float64}
use procstats.Go.Strconv.{parse_int, parse_uint}
use procstats.Go.Strings.{cut, lines}
use procstats.Pparser.Index.{LineKvFileParser, new_parser}
use procstats.Pparser.Parse.{
  trim_string_with_multiplier, parse_value, with_parsed, parse_line, parse_lines, parse,
}
use procstats.Pparser.Setters.{
  Outcome, Outcome-cases, field_kind, overflow_int, overflow_uint, overflow_real, set_int_field,
  set_uint_field, set_float_field, set_string_field,
}
use procstats.Pparser.Typed.Setters.{set_field-WellTyped, set_field-IsPanicFree}
use procstats.Pparser.Typed.{
  UnknownAt, ScalarFits, WellTyped, left_by, IsPanicFree, new_parser-UnknownAt,
}
use procstats.Pparser.Types.{
  Arm, signed, unsigned, floating, text, unhandled, arm, Field, int_value, uint_value, float_value,
  string_value, Struct,
}

module _ (fl : Float64) where
  open fl use {Carrier, of_int, mul, parse_float, overflow_float}

  -- What the overflow tests let through fits.
  fits_signed :
      (a : Arm) (b : ℕ) (v : ℤ)
      → a ≡ signed b
      → overflow_int v a ≡ false
      → ScalarFits fl a (int_value v)
  fits_signed (signed c) b v e h = ground arith
  fits_signed _ b v e h = cc

  fits_unsigned :
      (a : Arm) (b v : ℕ)
      → a ≡ unsigned b
      → overflow_uint v a ≡ false
      → ScalarFits fl a (uint_value v)
  fits_unsigned (unsigned c) b v e h = ground arith
  fits_unsigned _ b v e h = cc

  fits_floating :
      (a : Arm) (b : ℕ) (v : Carrier)
      → a ≡ floating b
      → overflow_real fl v a ≡ false
      → ScalarFits fl a (float_value v)
  fits_floating (floating c) b v e h = h
  fits_floating _ b v e h = cc

  fits_text : (a : Arm) (s : Bytes) → a ≡ text → ScalarFits fl a (string_value s)
  fits_text text s e = tt
  fits_text _ s e = cc

  module _ (p : LineKvFileParser) (u : UnknownAt p.struct_type p.unknown_idx p.unknown_kind) where
    abbrev Keeps : Struct Carrier → Outcome Carrier → Type 0
    Keeps out o = WellTyped fl p.struct_type out → WellTyped fl p.struct_type (left_by fl o)

    with_parsed-Keeps :
        {V : Type 0} (o : Option V) (out : Struct Carrier) (store : V → Outcome Carrier)
        → ((v : V) → Keeps out (store v))
        → Keeps out (with_parsed fl o out store)
    with_parsed-Keeps none out store h w = w
    with_parsed-Keeps (some v) out store h w = h v w

    parse_value-WellTyped :
        (a : Arm) (name s : Bytes) (out : Struct Carrier)
        → arm (field_kind p name) ≡ a
        → Keeps out (parse_value fl p a name s out)
    unfolding parse_value set_int_field set_uint_field set_float_field set_string_field
    parse_value-WellTyped (signed b) name s out e =
        let (r, m) = trim_string_with_multiplier s in
        with_parsed-Keeps (parse_int 64 r) out _ λ v.
          let n = wrap64 (v *ℤ pos m) in
          set_field-WellTyped fl p (λ k. overflow_int n (arm k)) name (int_value n) out u
            (fits_signed _ b n e)
    parse_value-WellTyped (unsigned b) name s out e =
        let (r, m) = trim_string_with_multiplier s in
        with_parsed-Keeps (parse_uint 10 64 r) out _ λ v.
          let n = v * m % 2 ^ 64 in
          set_field-WellTyped fl p (λ k. overflow_uint n (arm k)) name (uint_value n) out u
            (fits_unsigned _ b n e)
    parse_value-WellTyped (floating b) name s out e =
        let (r, m) = trim_string_with_multiplier s in
        with_parsed-Keeps (parse_float r) out _ λ v.
          let n = mul v (of_int (pos m)) in
          set_field-WellTyped fl p (λ k. overflow_real fl n (arm k)) name (float_value n) out u
            (fits_floating _ b n e)
    parse_value-WellTyped text name s out e =
        set_field-WellTyped fl p (λ _. false) name (string_value s) out u (λ _. fits_text _ s e)
    parse_value-WellTyped unhandled name s out e = λ w. w

    with_parsed-IsPanicFree :
        {V : Type 0} (o : Option V) (out : Struct Carrier) (store : V → Outcome Carrier)
        → ((v : V) → IsPanicFree fl (store v))
        → IsPanicFree fl (with_parsed fl o out store)
    with_parsed-IsPanicFree none out store h = ground arith
    with_parsed-IsPanicFree (some v) out store h = h v

    parse_value-IsPanicFree :
        (a : Arm) (name s : Bytes) (out : Struct Carrier)
        → arm (field_kind p name) ≡ a
        → IsPanicFree fl (parse_value fl p a name s out)
    unfolding parse_value set_int_field set_uint_field set_float_field set_string_field
    parse_value-IsPanicFree (signed b) name s out e =
        let (r, m) = trim_string_with_multiplier s in
        with_parsed-IsPanicFree (parse_int 64 r) out _ λ v.
          let n = wrap64 (v *ℤ pos m) in
          set_field-IsPanicFree fl p (λ k. overflow_int n (arm k)) name (int_value n) out u
            (λ h. cc)
    parse_value-IsPanicFree (unsigned b) name s out e =
        let (r, m) = trim_string_with_multiplier s in
        with_parsed-IsPanicFree (parse_uint 10 64 r) out _ λ v.
          let n = v * m % 2 ^ 64 in
          set_field-IsPanicFree fl p (λ k. overflow_uint n (arm k)) name (uint_value n) out u
            (λ h. cc)
    parse_value-IsPanicFree (floating b) name s out e =
        let (r, m) = trim_string_with_multiplier s in
        with_parsed-IsPanicFree (parse_float r) out _ λ v.
          let n = mul v (of_int (pos m)) in
          set_field-IsPanicFree fl p (λ k. overflow_real fl n (arm k)) name (float_value n) out u
            (λ h. cc)
    parse_value-IsPanicFree text name s out e =
        set_field-IsPanicFree fl p (λ _. false) name (string_value s) out u (λ h. cc)
    parse_value-IsPanicFree unhandled name s out e = ground arith

    parse_line-WellTyped :
        (line : Bytes) (out : Struct Carrier) → Keeps out (parse_line fl p line out)
    unfolding parse_line
    parse_line-WellTyped line out w = elim (Option-cases (cut p.split_key line)) [
      | inl e ↦ rw (e, parse_line, left_by) w
      | inr ((name, rest), e) ↦
          rw (e, parse_line, left_by) (parse_value-WellTyped _ name _ out refl w)
    ]

    parse_line-IsPanicFree :
        (line : Bytes) (out : Struct Carrier) → IsPanicFree fl (parse_line fl p line out)
    unfolding parse_line
    parse_line-IsPanicFree line out = elim (Option-cases (cut p.split_key line)) [
      | inl e ↦ rw (e, parse_line, IsPanicFree) (ground arith)
      | inr ((name, rest), e) ↦
          rw (e, parse_line, IsPanicFree) (parse_value-IsPanicFree _ name _ out refl)
    ]

    parse_lines-WellTyped :
        (ls : List Bytes) (out : Struct Carrier) → Keeps out (parse_lines fl p ls out)
    unfolding parse_lines
    parse_lines-WellTyped [] out w = w
    parse_lines-WellTyped (l ∷ ls) out w =
        let first = parse_line-WellTyped l out w in
        elim (Outcome-cases (parse_line fl p l out)) [
          | inl (out', e) ↦
              rw (e, parse_lines, left_by) (parse_lines-WellTyped ls out' (rw e at first))
          | inr (x, out', e) ↦ rw (e, parse_lines, left_by) (rw e at first)
        ]

    parse_lines-IsPanicFree :
        (ls : List Bytes) (out : Struct Carrier) → IsPanicFree fl (parse_lines fl p ls out)
    unfolding parse_lines
    parse_lines-IsPanicFree [] out = tt
    parse_lines-IsPanicFree (l ∷ ls) out =
        let first = parse_line-IsPanicFree l out in
        elim (Outcome-cases (parse_line fl p l out)) [
          | inl (out', e) ↦ rw (e, parse_lines, IsPanicFree) (parse_lines-IsPanicFree ls out')
          | inr (x, out', e) ↦ rw (e, parse_lines, IsPanicFree) (rw e at first)
        ]

module _ (fl : Float64) (t : List Field) (key content : Bytes) (out : Struct fl.Carrier) where
  -- A struct of type `t` is still one after `Parse`, whether it succeeds or stops at an error in the
  -- middle: each number is in the range of its field, also the elements of the map of unknown
  -- fields, and no field holds a value of another kind.
  pub parse-WellTyped :
      WellTyped fl t out → WellTyped fl t (left_by fl (parse fl (new_parser t key) content out))
  unfolding parse new_parser
  parse-WellTyped =
      parse_lines-WellTyped fl (new_parser t key) (new_parser-UnknownAt t key) (lines content) out

  -- `Parse` with a parser that `NewLineKVFileParser` made never reaches the "invariant failure"
  -- panic of a setter, whatever the struct type and the content are.
  pub parse-IsPanicFree : IsPanicFree fl (parse fl (new_parser t key) content out)
  unfolding parse new_parser
  parse-IsPanicFree =
      parse_lines-IsPanicFree fl (new_parser t key) (new_parser-UnknownAt t key) (lines content) out
