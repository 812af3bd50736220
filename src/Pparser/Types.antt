-- ===== src/Pparser/Types.antt =====
-- The kinds, types and values of struct fields, as pparser/proc_human_parser.go reads them by
-- `reflect`, on a platform whose `int` has 64 bits.
use Prim.Native.String.{String}
use procstats.Base.{ℕ, List, Option, none, some, Bytes, codes}
use procstats.Base.Int.{ℤ}

-- `reflect.Kind`; `other` is each kind that the parser has no case for.
pub data Kind : Type 0 where
  invalid int int8 int16 int32 int64 uint uint8 uint16 uint32 uint64 : Kind
  float32 float64 string map other : Kind

-- The cases of the parser's switch on a kind, with the bits of the number.
pub data Arm : Type 0 where
  signed : ℕ → Arm
  unsigned : ℕ → Arm
  floating : ℕ → Arm
  text : Arm
  unhandled : Arm

abbrev pub arm : Kind → Arm
arm int = signed 64
arm int8 = signed 8
arm int16 = signed 16
arm int32 = signed 32
arm int64 = signed 64
arm uint = unsigned 64
arm uint8 = unsigned 8
arm uint16 = unsigned 16
arm uint32 = unsigned 32
arm uint64 = unsigned 64
arm float32 = floating 32
arm float64 = floating 64
arm string = text
arm _ = unhandled

-- `mapping` is a map type, with the kinds of its keys and elements.
pub data FieldType : Type 0 where
  plain : Kind → FieldType
  mapping : Kind → Kind → FieldType

abbrev pub kind_of : FieldType → Kind
kind_of (plain k) = k
kind_of (mapping _ _) = map

-- A `reflect.StructField`: its name, its `pparser` tag, its type.
pub record Field : Type 0 where
  pub name : Bytes
  pub tag : Option Bytes
  pub type : FieldType

-- Values of plain fields and of map elements, over the floats `F`.
pub data Scalar (F : Type 0) : Type 0 where
  int_value : ℤ → Scalar F
  uint_value : ℕ → Scalar F
  float_value : F → Scalar F
  string_value : Bytes → Scalar F

-- `map_value none` is a nil map; `opaque_value` is the value of a field that is never set.
pub data Value (F : Type 0) : Type 0 where
  scalar_value : Scalar F → Value F
  map_value : Option (List (Bytes × Scalar F)) → Value F
  opaque_value : Value F

abbrev pub Struct : Type 0 → Type 0
Struct F = List (Value F)

-- A field with the tag `pparser:"tag"`, and one with no tag.
abbrev pub tagged : String → String → Kind → Field
tagged name tag k = record { name = codes name; tag = some (codes tag); type = plain k }

abbrev pub untagged : String → Kind → Field
untagged name k = record { name = codes name; tag = none; type = plain k }

-- `UnknownFields map[string]T` with the tag `pparser:"skip,unknown"`.
abbrev pub unknown_fields : Kind → Field
unknown_fields k = record {
  name = codes "UnknownFields";
  tag = some (codes "skip,unknown");
  type = mapping string k;
}
