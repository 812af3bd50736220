-- ===== src/Pparser/Dict/Files.antt =====
-- `Parse` on files that are rendered, and what the fields of the struct are then.
use mathlib.Core.Path.{subst}
use procstats.Base.{
  ℕ, ◌≡◌, ◌≢◌, refl, sym, ap, ◌∙◌, Bool, true, false, List, [], ◌∷◌, Option, none, some, arith,
  Bytes, length, equal, get_elem?, lookup, All, Option-cases, inl, inr, Bool-cases, ◌&&◌, ◌==◌,
}
use procstats.Base.Int.{ℤ}
use procstats.Go.Float.{Float64}
use procstats.Pparser.Dict.Refine.{Agrees, parse-Agrees}
use procstats.Pparser.Dict.Render.{Item, render, IsItem, written, read_dict-render}
use procstats.Pparser.Dict.Rows.{Row, rows_text, Reads, rows_dict, read_dict-rows}
use procstats.Pparser.Dict.Setters.{Same}
use procstats.Pparser.Dict.{Dict, scalar_in, unknown_view, view}
use procstats.Pparser.Fields.{position, int_in, int_field}
use procstats.Pparser.Index.{LineKvFileParser, new_parser}
use procstats.Pparser.Parse.{parse}
use procstats.Pparser.Setters.{Outcome, done, failed, kind_at, field_kind}
use procstats.Pparser.Types.{
  Arm, unsigned, floating, text, unhandled, arm, signed, Field, int_value, Value, uint_value,
  float_value, string_value, map_value, opaque_value, scalar_value, Struct,
}

-- An outcome that succeeds, with a struct that shows the dictionary.
abbrev pub Shows : {F : Type 0} → LineKvFileParser → Outcome F → Dict F → Type 0
Shows p o d = (out : Struct _) × (o ≡ done out) × Same (view p out) d

Agrees-Shows :
    {F : Type 0} (p : LineKvFileParser) (o : Outcome F) (d : Dict F)
    → Agrees p o (d, true)
    → Shows p o d
Agrees-Shows p (done out) d (e, s) = (out, refl, s)
Agrees-Shows p (failed e out) d (h, s) = absurd (ground arith)

abbrev pub is_int64 : Arm → Bool
is_int64 (signed b) = b == 64
is_int64 _ = false

abbrev pub all_signed : List Field → List (Bytes × ℕ) → Bool
all_signed t [] = true
all_signed t (e ∷ es) = is_int64 (arm (kind_at t e.1)) && all_signed t es

-- A parser of which every field, and every unknown name, is an int64.
abbrev pub AllSigned : LineKvFileParser → Type 0
AllSigned p = (arm p.unknown_kind ≡ signed 64) × (all_signed p.struct_type p.idx ≡ true)

&&_split : (a b : Bool) → (a && b) ≡ true → (a ≡ true) × (b ≡ true)
&&_split true b h = (refl, h)
&&_split false b h = absurd (ground arith)

is_int64-signed : (a : Arm) → is_int64 a ≡ true → a ≡ signed 64
is_int64-signed (signed b) h = ap signed (ground arith)
is_int64-signed (unsigned b) h = absurd (ground arith)
is_int64-signed (floating b) h = absurd (ground arith)
is_int64-signed text h = absurd (ground arith)
is_int64-signed unhandled h = absurd (ground arith)

lookup-all_signed :
    (t : List Field) (name : Bytes) (m : List (Bytes × ℕ)) (i : ℕ)
    → all_signed t m ≡ true
    → lookup name m ≡ some i
    → is_int64 (arm (kind_at t i)) ≡ true
unfolding lookup
lookup-all_signed t name [] i h e = absurd (ground arith)
lookup-all_signed t name ((n, j) ∷ m) i h e =
    let (here, later) = &&_split (is_int64 (arm (kind_at t j))) (all_signed t m) h in
    elim (Bool-cases (equal n name)) [
      | inl q ↦ subst (λ j. is_int64 (arm (kind_at t j)) ≡ true) (cc) here
      | inr q ↦ lookup-all_signed t name m i later (rw (q, lookup) at e)
    ]

pub field_kind-AllSigned :
    (p : LineKvFileParser) (name : Bytes) → AllSigned p → arm (field_kind p name) ≡ signed 64
unfolding field_kind
field_kind-AllSigned p name (u, h) = elim (Option-cases (lookup name p.idx)) [
  | inl e ↦ rw (e, field_kind) u
  | inr (i, e) ↦
      rw (e, field_kind) (is_int64-signed _ (lookup-all_signed p.struct_type name p.idx i h e))
]

int_in_scalar :
    {F : Type 0} (o : Option (Value F)) (z : ℤ) → scalar_in o ≡ some (int_value z) → int_in o ≡ z
int_in_scalar none z e = cc
int_in_scalar (some (scalar_value (int_value y))) z e = cc
int_in_scalar (some (scalar_value (uint_value y))) z e = cc
int_in_scalar (some (scalar_value (float_value y))) z e = cc
int_in_scalar (some (scalar_value (string_value y))) z e = cc
int_in_scalar (some (map_value y)) z e = cc
int_in_scalar (some opaque_value) z e = cc

-- What a view says of a name is in its field.
pub int_field-view :
    {F : Type 0} (p : LineKvFileParser) (out : Struct F) (name field : Bytes) (z : ℤ)
    → lookup name p.idx ≡ some (position field p.struct_type)
    → view p out name ≡ some (int_value z)
    → int_field p.struct_type field out ≡ z
unfolding view int_field
int_field-view p out name field z e v =
    int_in_scalar (get_elem? out (position field p.struct_type)) z (
      sym (
        ap
          (λ o. elim o [
            | some i ↦ scalar_in (get_elem? out i)
            | none ↦ unknown_view p.unknown_idx out name
          ])
          e)
      ∙ v)

-- Where each name of a rendered file of numbers has an int64 field, or none where the unknown names have a
-- map of int64, parsing the file succeeds, and the struct has for each name the amount of its last line, and
-- for the names without a line what it had. The numbers and the amounts fit an int64, no name has the
-- separator or a newline, only white space without a newline is in front of a number, the separator is a
-- byte other than the newline, and the struct has a value for each field.
pub parse-render :
    (fl : Float64) (t : List Field) (k : ℕ) (is : List Item) (out : Struct fl.Carrier)
    → length out ≡ length t
    → k ≢ b'\n'
    → All (λ i. IsItem k i × (arm (field_kind (new_parser t (k ∷ [])) i.name) ≡ signed 64)) is
    → Shows
        (new_parser t (k ∷ []))
        (parse fl (new_parser t (k ∷ [])) (render k is) out)
        (written fl is (view (new_parser t (k ∷ [])) out))
parse-render fl t k is out l n h =
    let p = new_parser t (k ∷ []) in
    Agrees-Shows p _ _ (
      rw (← read_dict-render fl k (field_kind p) is (view p out) n h)
        (parse-Agrees fl t (k ∷ []) (render k is) out l))

-- The same for a file with any values that the fields can hold.
pub parse-rows :
    (fl : Float64) (t : List Field) (k : ℕ) (rs : List Row) (out : Struct fl.Carrier)
    → length out ≡ length t
    → k ≢ b'\n'
    → All (Reads fl k (field_kind (new_parser t (k ∷ [])))) rs
    → Shows
        (new_parser t (k ∷ []))
        (parse fl (new_parser t (k ∷ [])) (rows_text k rs) out)
        (rows_dict fl k (field_kind (new_parser t (k ∷ []))) rs (view (new_parser t (k ∷ [])) out))
parse-rows fl t k rs out l n h =
    let p = new_parser t (k ∷ []) in
    Agrees-Shows p _ _ (
      rw (← read_dict-rows fl k (field_kind p) rs (view p out) n h)
        (parse-Agrees fl t (k ∷ []) (rows_text k rs) out l))
