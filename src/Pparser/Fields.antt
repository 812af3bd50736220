-- ===== src/Pparser/Fields.antt =====
-- Zero values of structs, and their fields by name: what the callers of pparser/ do with a struct.
use procstats.Base.{
  ℕ, zero, suc, List, [], ◌∷◌, Option, none, some, if◌then◌else◌, Bytes, equal, map, get_elem?, set,
}
use procstats.Base.Int.{ℤ, pos}
use procstats.Go.Float.{Float64}
use procstats.Pparser.Types.{
  Arm, signed, unsigned, floating, text, unhandled, arm, FieldType, plain, mapping, Field,
  int_value, uint_value, float_value, string_value, Value, scalar_value, map_value, opaque_value,
  Struct,
}

-- The place of the field with this Go name; behind the last field if there is none.
abbrev pub position : Bytes → List Field → ℕ
position name [] = zero
position name (f ∷ fs) =
    let later = suc (position name fs) in if equal f.name name then zero else later

module _ {F : Type 0} where
  abbrev pub int_in : Option (Value F) → ℤ
  int_in (some (scalar_value (int_value z))) = z
  int_in _ = pos 0

  -- `out.Name`, for a field of an integer kind.
  unfoldable pub int_field : List Field → Bytes → Struct F → ℤ
  int_field t name out = int_in (get_elem? out (position name t))

  -- `T{Name: make(map[string]int64)}`: the struct with an empty map in that field.
  unfoldable pub with_map : List Field → Bytes → Struct F → Struct F
  with_map t name out = set out (position name t) (map_value (some []))

module _ (fl : Float64) where
  open fl use {Carrier, of_int}

  abbrev pub zero_plain : Arm → Value Carrier
  zero_plain (signed _) = scalar_value (int_value (pos 0))
  zero_plain (unsigned _) = scalar_value (uint_value 0)
  zero_plain (floating _) = scalar_value (float_value (of_int (pos 0)))
  zero_plain text = scalar_value (string_value [])
  zero_plain unhandled = opaque_value

  abbrev pub zero_value : FieldType → Value Carrier
  zero_value (plain k) = zero_plain (arm k)
  zero_value (mapping _ _) = map_value none

  -- `T{}`
  unfoldable pub zero_struct : List Field → Struct Carrier
  zero_struct t = map (λ f. zero_value f.type) t
