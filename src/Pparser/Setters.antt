-- ===== src/Pparser/Setters.antt =====
-- The setters of pparser/proc_human_parser.go.
use mathlib.Core.Bool.{not}
use procstats.Base.{
  ℕ, ◌^◌, Bool, false, List, [], Option, none, some, ltb, if◌then◌else◌, Bytes, get_elem?, set,
  lookup, insert, ◌≡◌, refl, ◌⊎◌, inl, inr,
}
use procstats.Base.Int.{ℤ, fits_int}
use procstats.Go.Float.{Float64}
use procstats.Pparser.Index.{LineKvFileParser}
use procstats.Pparser.Types.{
  Kind, invalid, Arm, signed, unsigned, floating, arm, kind_of, Field, Scalar, int_value,
  uint_value, float_value, string_value, Value, scalar_value, map_value, Struct,
}

-- Where the parser gives up. `no_field` is the panic "invariant failure".
pub data Error : Type 0 where
  cannot_split bad_number overflow unhandled_kind no_field : Error

-- The struct is written in place, so an error leaves what was written before it.
pub data Outcome (F : Type 0) : Type 0 where
  done : Struct F → Outcome F
  failed : Error → Struct F → Outcome F

pub Outcome-cases :
    {F : Type 0} (o : Outcome F)
    → ((out : Struct F) × (o ≡ done out)) ⊎ ((e : Error) × (out : Struct F) × (o ≡ failed e out))
Outcome-cases (done out) = inl (out, refl)
Outcome-cases (failed e out) = inr (e, out, refl)

-- The kind of field `i` of a struct type.
abbrev pub kind_at : List Field → ℕ → Kind
kind_at t i = elim (get_elem? t i) [ none ↦ invalid | some f ↦ kind_of f.type ]

-- `fieldKind`
unfoldable pub field_kind : LineKvFileParser → Bytes → Kind
field_kind p name = elim (lookup name p.idx) [
  | none ↦ p.unknown_kind
  | some i ↦ kind_at p.struct_type i
]

module _ {F : Type 0} where
  -- The entries of a map; a nil map has none.
  abbrev pub entries : Value F → List (Bytes × Scalar F)
  entries (map_value (some m)) = m
  entries _ = []

  abbrev pub entries_at : Struct F → ℕ → List (Bytes × Scalar F)
  entries_at out u = elim (get_elem? out u) [ none ↦ [] | some v ↦ entries v ]

  -- The branch of a setter for a name with no field: the map is made if it is nil, also where the
  -- value then overflows.
  unfoldable pub set_unknown : Option ℕ → Bool → Bytes → Scalar F → Struct F → Outcome F
  set_unknown none overflows name v out = failed no_field out
  set_unknown (some u) overflows name v out =
      let m = entries_at out u in
      if overflows
      then failed overflow (set out u (map_value (some m)))
      else done (set out u (map_value (some (insert name v m))))

  -- The branch for a name with field `i`.
  unfoldable pub set_known : ℕ → Bool → Scalar F → Struct F → Outcome F
  set_known i overflows v out =
      if overflows then failed overflow out else done (set out i (scalar_value v))

  -- What the four setters share; `overflows` is the kind's own test.
  unfoldable pub set_field :
      LineKvFileParser → (Kind → Bool) → Bytes → Scalar F → Struct F → Outcome F
  unfolding set_unknown set_known
  set_field p overflows name v out = elim (lookup name p.idx) [
    | none ↦ set_unknown p.unknown_idx (overflows p.unknown_kind) name v out
    | some i ↦ set_known i (overflows (kind_at p.struct_type i)) v out
  ]

-- `reflect.Value.OverflowInt` and `OverflowUint` at a field of this arm.
abbrev pub overflow_int : ℤ → Arm → Bool
overflow_int v (signed b) = not (fits_int b v)
overflow_int v _ = false

abbrev pub overflow_uint : ℕ → Arm → Bool
overflow_uint v (unsigned b) = not (ltb v (2 ^ b))
overflow_uint v _ = false

module _ (fl : Float64) where
  open fl use {Carrier, overflow_float}

  abbrev pub overflow_real : Carrier → Arm → Bool
  overflow_real v (floating b) = overflow_float b v
  overflow_real v _ = false

  unfoldable pub set_int_field : LineKvFileParser → Bytes → ℤ → Struct Carrier → Outcome Carrier
  unfolding set_field
  set_int_field p name v = set_field p (λ k. overflow_int v (arm k)) name (int_value v)

  unfoldable pub set_uint_field : LineKvFileParser → Bytes → ℕ → Struct Carrier → Outcome Carrier
  unfolding set_field
  set_uint_field p name v = set_field p (λ k. overflow_uint v (arm k)) name (uint_value v)

  unfoldable pub set_float_field :
      LineKvFileParser → Bytes → Carrier → Struct Carrier → Outcome Carrier
  unfolding set_field
  set_float_field p name v = set_field p (λ k. overflow_real v (arm k)) name (float_value v)

  unfoldable pub set_string_field :
      LineKvFileParser → Bytes → Bytes → Struct Carrier → Outcome Carrier
  unfolding set_field
  set_string_field p name v = set_field p (λ _. false) name (string_value v)
