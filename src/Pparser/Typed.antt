-- ===== src/Pparser/Typed.antt =====
-- Well-typed structs and sound indexes of pparser/proc_human_parser.go; the setters and `Parse` are
-- in the children.
pub mod Setters
pub mod Parse
use mathlib.Core.Bool.{not}
use procstats.Base.{
  ℕ, zero, suc, ◌^◌, ◌≡◌, ◌≢◌, refl, Bool, true, false, List, [], ◌∷◌, Option, none, some, arith,
  ltb, if◌then◌else◌, Bytes, codes, equal, get_elem?, set, lookup, insert, All, Option-cases,
  Bool-cases, ap, inl, inr, lookup-insert, sym, ◌∙◌, ◌++◌, append_assoc, length, length-concat,
  get_elem?-append,
}
use procstats.Base.Int.{ℤ, fits_int}
use procstats.Go.Float.{Float64}
use procstats.Pparser.Index.{
  FieldIndex, index_unknown, index_field, index_fields, field_index, LineKvFileParser, new_parser,
}
use procstats.Pparser.Setters.{
  overflow, no_field, Outcome, done, failed, kind_at, field_kind, entries, entries_at, set_unknown,
  set_known, set_field, overflow_int, overflow_uint, overflow_real, set_int_field, set_uint_field,
  set_float_field, set_string_field,
}
use procstats.Pparser.Types.{
  Kind, invalid, string, Arm, signed, unsigned, floating, text, unhandled, arm, FieldType, plain,
  mapping, kind_of, Field, Scalar, int_value, uint_value, float_value, string_value, Value,
  scalar_value, map_value, opaque_value, Struct,
}

-- What `fieldIndex` finds for unknown names: field `u` is a map from strings to the kind, or there
-- is none and the kind is invalid.
abbrev pub UnknownAt : List Field → Option ℕ → Kind → Type 0
UnknownAt t none k = k ≡ invalid
UnknownAt t (some u) k = (f : Field) × (get_elem? t u ≡ some f) × (f.type ≡ mapping string k)

module _ (t : List Field) where
  index_unknown-UnknownAt :
      (i : ℕ) (ty : FieldType) (f : Field) (x : FieldIndex)
      → get_elem? t i ≡ some f
      → f.type ≡ ty
      → UnknownAt t x.unknown_idx x.unknown_kind
      → UnknownAt t (index_unknown i ty x).unknown_idx (index_unknown i ty x).unknown_kind
  unfolding index_unknown
  index_unknown-UnknownAt i (mapping string elem) f x at e h = (f, at, e)
  index_unknown-UnknownAt i _ f x at e h = h

  index_field-UnknownAt :
      (i : ℕ) (f : Field) (x : FieldIndex)
      → get_elem? t i ≡ some f
      → UnknownAt t x.unknown_idx x.unknown_kind
      → UnknownAt t (index_field i f x).unknown_idx (index_field i f x).unknown_kind
  unfolding index_field
  index_field-UnknownAt i f x at h = go f.tag refl
    where
      go :
          (o : Option Bytes)
          → f.tag ≡ o
          → UnknownAt t (index_field i f x).unknown_idx (index_field i f x).unknown_kind
      go none e = rw (index_field, e) h
      go (some tag) e = elim (Bool-cases (equal tag (codes "skip,unknown"))) [
        | inl u ↦ rw (index_field, e, u) (index_unknown-UnknownAt i f.type f x at refl h)
        | inr n ↦ elim (Bool-cases (equal tag (codes "skip"))) [
          | inl u ↦ rw (index_field, e, n, u) h
          | inr m ↦ rw (index_field, e, n, m) h
        ]
      ]

  -- The loop over `fs`, the fields from `i` on.
  index_fields-UnknownAt :
      (before fs : List Field) (i : ℕ) (x : FieldIndex)
      → t ≡ before ++ fs
      → i ≡ length before
      → UnknownAt t x.unknown_idx x.unknown_kind
      → UnknownAt t (index_fields i fs x).unknown_idx (index_fields i fs x).unknown_kind
  unfolding index_fields
  index_fields-UnknownAt before [] i x e n h = h
  index_fields-UnknownAt before (f ∷ fs) i x e n h =
      index_fields-UnknownAt (before ++ f ∷ []) fs (suc i) (index_field i f x)
        (e ∙ sym (append_assoc before (f ∷ []) fs)) (ap suc n ∙ sym (length-concat before f))
        (index_field-UnknownAt i f x (rw (e, n) (get_elem?-append before f fs)) h)

-- The index of a new parser is sound.
pub new_parser-UnknownAt :
    (t : List Field) (key : Bytes)
    → UnknownAt t (new_parser t key).unknown_idx (new_parser t key).unknown_kind
unfolding new_parser field_index
new_parser-UnknownAt t key = index_fields-UnknownAt t [] t 0 _ refl refl refl

module _ (fl : Float64) where
  open fl use {Carrier, overflow_float}

  -- A value that a field of this arm can hold.
  abbrev pub ScalarFits : Arm → Scalar Carrier → Type 0
  ScalarFits (signed b) (int_value z) = fits_int b z ≡ true
  ScalarFits (unsigned b) (uint_value n) = ltb n (2 ^ b) ≡ true
  ScalarFits (floating b) (float_value x) = overflow_float b x ≡ false
  ScalarFits text (string_value s) = Unit
  ScalarFits _ _ = ⊥

  abbrev pub EntriesFit : Kind → List (Bytes × Scalar Carrier) → Type 0
  EntriesFit k = All (λ e. ScalarFits (arm k) e.1)

  -- A value of a field of this type. A field that the parser never sets may hold anything else.
  abbrev pub FieldFits : FieldType → Value Carrier → Type 0
  FieldFits (plain k) (scalar_value s) = ScalarFits (arm k) s
  FieldFits (mapping _ k) (map_value none) = Unit
  FieldFits (mapping _ k) (map_value (some m)) = EntriesFit k m
  FieldFits _ opaque_value = Unit
  FieldFits _ _ = ⊥

  -- A struct of the struct type `t`.
  abbrev pub WellTyped : List Field → Struct Carrier → Type 0
  WellTyped [] [] = Unit
  WellTyped (f ∷ fs) (v ∷ vs) = FieldFits f.type v × WellTyped fs vs
  WellTyped _ _ = ⊥

  -- The struct as an outcome leaves it.
  abbrev pub left_by : Outcome Carrier → Struct Carrier
  left_by (done out) = out
  left_by (failed e out) = out

  abbrev pub IsPanicFree : Outcome Carrier → Type 0
  IsPanicFree (done out) = Unit
  IsPanicFree (failed e out) = e ≢ no_field
