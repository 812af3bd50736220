-- ===== src/Pparser/Dict/Refine.antt =====
-- `Parse` of pparser/proc_human_parser.go does to a struct what the abstract reading does to a dictionary.
use procstats.Base.{
  ℕ, ◌*◌, ◌%◌, ◌^◌, ◌≡◌, ◌≢◌, refl, sym, ap, ◌∙◌, Bool, not, ltb, true, false, List, [], ◌∷◌,
  Option, none, some, Bytes, length, if◌then◌else◌, equal, lookup, Option-cases, inl, inr,
}
use procstats.Base.Int.{pos, fits_int, ◌*ℤ◌, wrap64}
use procstats.Go.Float.{Float64}
use procstats.Go.Spaces.{trim_space}
use procstats.Go.Strconv.{parse_int, parse_uint}
use procstats.Go.Strings.{cut, lines}
use procstats.Pparser.Dict.{Dict, view}
use procstats.Pparser.Dict.Index.{IsSound, new_parser-IsSound}
use procstats.Pparser.Dict.Lines.{
  held, with_unit, number_value, value_of, named, entry, read_lines, read_dict,
}
use procstats.Pparser.Dict.Setters.{write, Same, Writes, set_field-Writes}
use procstats.Pparser.Index.{LineKvFileParser, new_parser}
use procstats.Pparser.Parse.{
  trim_string_with_multiplier, with_parsed, parse_signed, parse_unsigned, parse_floating,
  parse_value, parse_line, parse_lines, parse,
}
use procstats.Pparser.Setters.{
  Outcome, done, failed, field_kind, set_field, set_known, set_unknown, set_int_field,
  set_uint_field, set_float_field, set_string_field, unhandled_kind, overflow_int, overflow_uint,
  overflow_real,
}
use procstats.Pparser.Typed.{UnknownAt, new_parser-UnknownAt}
use procstats.Pparser.Types.{
  Kind, Arm, signed, unsigned, floating, text, unhandled, arm, Field, Scalar, string_value, Struct,
}

module _ {F : Type 0} where
  -- The outcome succeeds exactly if the flag is set, and its struct shows the dictionary.
  abbrev pub Agrees : LineKvFileParser → Outcome F → Dict F × Bool → Type 0
  Agrees p (done out) (d, b) = (b ≡ true) × Same (view p out) d
  Agrees p (failed e out) (d, b) = (b ≡ false) × Same (view p out) d

  -- An outcome for an entry, or for none.
  abbrev pub Takes : LineKvFileParser → Struct F → Option (Bytes × Scalar F) → Outcome F → Type 0
  Takes p out none (done out') = ⊥
  Takes p out none (failed e out') = Same (view p out') (view p out) × (length out' ≡ length out)
  Takes p out (some (n, v)) (done out') =
      Same (view p out') (write (view p out) n v) × (length out' ≡ length out)
  Takes p out (some (n, v)) (failed e out') = ⊥

  abbrev pub take_if : Bool → Bytes → Scalar F → Option (Bytes × Scalar F)
  take_if true name v = none
  take_if false name v = some (name, v)

  set_known-Takes :
      (p : LineKvFileParser) (i : ℕ) (overflows : Bool) (name : Bytes) (v : Scalar F)
      (out : Struct F)
      → Writes p name v out (set_known i overflows v out)
      → Takes p out (take_if overflows name v) (set_known i overflows v out)
  unfolding set_known
  set_known-Takes p i true name v out w = w
  set_known-Takes p i false name v out w = w

  set_unknown-Takes :
      (p : LineKvFileParser) (o : Option ℕ) (k : Kind) (overflows : Bool) (name : Bytes)
      (v : Scalar F) (out : Struct F)
      → UnknownAt p.struct_type o k
      → arm k ≢ unhandled
      → Writes p name v out (set_unknown o overflows name v out)
      → Takes p out (take_if overflows name v) (set_unknown o overflows name v out)
  unfolding set_unknown
  set_unknown-Takes p none k b name v out u h w = absurd (h (ap arm u))
  set_unknown-Takes p (some i) k true name v out u h w = w
  set_unknown-Takes p (some i) k false name v out u h w = w

  module _ (p : LineKvFileParser) (u : UnknownAt p.struct_type p.unknown_idx p.unknown_kind)
      (sound : IsSound (length p.struct_type) p.index) where
    set_field-Takes :
        (overflows : Kind → Bool) (name : Bytes) (v : Scalar F) (out : Struct F)
        → length out ≡ length p.struct_type
        → arm (field_kind p name) ≢ unhandled
        → Takes p out
            (take_if (overflows (field_kind p name)) name v)
            (set_field p overflows name v out)
    unfolding field_kind set_field
    set_field-Takes overflows name v out l h =
        let w = set_field-Writes p sound overflows name v out l in
        elim (Option-cases (lookup name p.idx)) [
          | inl e ↦
              rw (e, field_kind, set_field, Takes, take_if)
                (set_unknown-Takes p p.unknown_idx p.unknown_kind _ name v out u
                  (rw (e, field_kind) at h) (rw (e, set_field, Writes) at w))
          | inr (i, e) ↦
              rw (e, field_kind, set_field, Takes, take_if)
                (set_known-Takes p i _ name v out (rw (e, set_field, Writes) at w))
        ]

-- The code's unit is that of the reading.
trim-with_unit : (s : Bytes) → trim_string_with_multiplier s ≡ with_unit s
unfolding trim_string_with_multiplier with_unit
trim-with_unit s = refl

not-not : (b : Bool) → not (not b) ≡ b
not-not true = refl
not-not false = refl

module _ (fl : Float64) (p : LineKvFileParser)
    (u : UnknownAt p.struct_type p.unknown_idx p.unknown_kind)
    (sound : IsSound (length p.struct_type) p.index) where
  open fl use {Carrier, of_int, mul, parse_float, overflow_float}

  -- The switch of `Parse`, on a number and its unit.
  abbrev parse_number : Arm → Bytes → Bytes × ℕ → Struct Carrier → Outcome Carrier
  parse_number (signed b) name num out = parse_signed fl p name num out
  parse_number (unsigned b) name num out = parse_unsigned fl p name num out
  parse_number (floating b) name num out = parse_floating fl p name num out
  parse_number _ name num out = failed unhandled_kind out

  -- A number that was parsed, or none.
  with_parsed-Takes :
      {V : Type 0} (o : Option V) (out : Struct Carrier) (name : Bytes)
      (store : V → Outcome Carrier) (value : V → Option (Scalar Carrier))
      → ((v : V) → Takes p out (named fl name (value v)) (store v))
      → Takes p out
          (named fl name (elim o [ none ↦ none | some v ↦ value v ]))
          (with_parsed fl o out store)
  with_parsed-Takes none out name store value h = ((λ n. refl), refl)
  with_parsed-Takes (some v) out name store value h = h v

  -- `take_if` is what `held` leaves.
  held-Takes :
      (holds : Bool) (name : Bytes) (v : Scalar Carrier) (out : Struct Carrier)
      (o : Outcome Carrier)
      → Takes p out (take_if (not holds) name v) o
      → Takes p out (named fl name (held fl holds v)) o
  held-Takes true name v out o h = h
  held-Takes false name v out o h = h

  -- A value goes to its field: the test is that of the field's arm.
  store-Takes :
      (a : Arm) (test : Arm → Bool) (holds : Bool) (name : Bytes) (v : Scalar Carrier)
      (out : Struct Carrier)
      → test a ≡ not holds
      → arm (field_kind p name) ≡ a
      → a ≢ unhandled
      → length out ≡ length p.struct_type
      → Takes p out (named fl name (held fl holds v)) (set_field p (λ k. test (arm k)) name v out)
  store-Takes a test holds name v out q e h l =
      held-Takes holds name v out _
        (rw (← q, ← e) (set_field-Takes p u sound (λ k. test (arm k)) name v out l (rw e h)))

  parse_number-Takes :
      (a : Arm) (name : Bytes) (num : Bytes × ℕ) (out : Struct Carrier)
      → arm (field_kind p name) ≡ a
      → length out ≡ length p.struct_type
      → Takes p out (named fl name (number_value fl a num)) (parse_number a name num out)
  unfolding parse_signed parse_unsigned parse_floating set_int_field set_uint_field set_float_field
  parse_number-Takes (signed b) name (r, m) out e l =
      with_parsed-Takes (parse_int 64 r) out name _ _ λ v.
        store-Takes (signed b) (overflow_int (wrap64 (v *ℤ pos m)))
          (fits_int b (wrap64 (v *ℤ pos m))) name _ out refl e (λ h. cc) l
  parse_number-Takes (unsigned b) name (r, m) out e l =
      with_parsed-Takes (parse_uint 10 64 r) out name _ _ λ v.
        store-Takes (unsigned b) (overflow_uint (v * m % 2 ^ 64)) (ltb (v * m % 2 ^ 64) (2 ^ b))
          name _ out refl e (λ h. cc) l
  parse_number-Takes (floating b) name (r, m) out e l =
      with_parsed-Takes (parse_float r) out name _ _ λ v.
        store-Takes (floating b) (overflow_real fl (mul v (of_int (pos m))))
          (not (overflow_float b (mul v (of_int (pos m))))) name _ out
          (sym (not-not (overflow_float b (mul v (of_int (pos m)))))) e (λ h. cc) l
  parse_number-Takes text name num out e l = ((λ n. refl), refl)
  parse_number-Takes unhandled name num out e l = ((λ n. refl), refl)

  parse_value-Takes :
      (a : Arm) (name s : Bytes) (out : Struct Carrier)
      → arm (field_kind p name) ≡ a
      → length out ≡ length p.struct_type
      → Takes p out (named fl name (value_of fl a s)) (parse_value fl p a name s out)
  unfolding parse_value set_string_field
  parse_value-Takes (signed b) name s out e l =
      rw (trim-with_unit s) (parse_number-Takes (signed b) name (with_unit s) out e l)
  parse_value-Takes (unsigned b) name s out e l =
      rw (trim-with_unit s) (parse_number-Takes (unsigned b) name (with_unit s) out e l)
  parse_value-Takes (floating b) name s out e l =
      rw (trim-with_unit s) (parse_number-Takes (floating b) name (with_unit s) out e l)
  parse_value-Takes text name s out e l =
      store-Takes text (λ _. false) true name (string_value s) out refl e (λ h. cc) l
  parse_value-Takes unhandled name s out e l = ((λ n. refl), refl)

  parse_line-Takes :
      (line : Bytes) (out : Struct Carrier)
      → length out ≡ length p.struct_type
      → Takes p out (entry fl p.split_key (field_kind p) line) (parse_line fl p line out)
  unfolding parse_line entry
  parse_line-Takes line out l = elim (Option-cases (cut p.split_key line)) [
    | inl e ↦ rw (e, entry, parse_line, Takes) ((λ n. refl), refl)
    | inr ((name, rest), e) ↦
        rw (e, entry, parse_line, Takes) (parse_value-Takes _ name (trim_space rest) out refl l)
  ]

  -- Where a line's outcome takes its entry, the lines behind it go on from the same dictionary.
  lines_step :
      (o : Option (Bytes × Scalar Carrier)) (r : Outcome Carrier) (ls : List Bytes)
      (out : Struct Carrier) (d : Dict Carrier)
      → Takes p out o r
      → Same (view p out) d
      → length out ≡ length p.struct_type
      → ((out' : Struct Carrier) (d' : Dict Carrier)
          → Same (view p out') d'
          → length out' ≡ length p.struct_type
          → Agrees p (parse_lines fl p ls out') (read_lines fl p.split_key (field_kind p) ls d'))
      → Agrees p
          (elim r [ failed e out' ↦ failed e out' | done out' ↦ parse_lines fl p ls out' ])
          (elim o [
            | none ↦ (d, false)
            | some (name, v) ↦ read_lines fl p.split_key (field_kind p) ls (write d name v)
          ])
  lines_step none (done out') ls out d t s l rest = absurd t
  lines_step none (failed e out') ls out d (w, k) s l rest = (refl, λ n. w n ∙ s n)
  lines_step (some (name, v)) (done out') ls out d (w, k) s l rest =
      rest out' (write d name v) (λ n. w n ∙ ap (λ t. if equal name n then some v else t) (s n))
        (k ∙ l)
  lines_step (some (name, v)) (failed e out') ls out d t s l rest = absurd t

  parse_lines-Agrees :
      (ls : List Bytes) (out : Struct Carrier) (d : Dict Carrier)
      → Same (view p out) d
      → length out ≡ length p.struct_type
      → Agrees p (parse_lines fl p ls out) (read_lines fl p.split_key (field_kind p) ls d)
  unfolding parse_lines read_lines
  parse_lines-Agrees [] out d s l = (refl, s)
  parse_lines-Agrees (line ∷ ls) out d s l =
      lines_step (entry fl p.split_key (field_kind p) line) (parse_line fl p line out) ls out d
        (parse_line-Takes line out l) s l (parse_lines-Agrees ls)

-- `Parse` refines the abstract reading of a file: it succeeds exactly if every line is an entry, and then,
-- as also where it fails, the struct says of every name what the dictionary says after the lines that were
-- read. A line is an entry if it has the separator, its name has a field of a number or a text, or has none
-- where the unknown names have a map of these, a number can be parsed in front of its unit, kB for 1024 or
-- none, and the number times the unit, as an int64 or a uint64 into which it wraps around, has the bits of
-- its field; what is stored is that wrapped product. The product of a float64 must not overflow its field,
-- and a text is an entry in any case. The struct has a value for each field of its type.
pub parse-Agrees :
    (fl : Float64) (t : List Field) (key content : Bytes) (out : Struct fl.Carrier)
    → length out ≡ length t
    → Agrees
        (new_parser t key)
        (parse fl (new_parser t key) content out)
        (read_dict fl key (field_kind (new_parser t key)) content (view (new_parser t key) out))
unfolding parse read_dict new_parser
parse-Agrees fl t key content out l =
    parse_lines-Agrees fl (new_parser t key) (new_parser-UnknownAt t key) (new_parser-IsSound t key)
      (lines content) out (view (new_parser t key) out) (λ n. refl) l
