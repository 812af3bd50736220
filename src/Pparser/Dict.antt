-- ===== src/Pparser/Dict.antt =====
-- pparser/proc_human_parser.go as a dictionary: what a struct says of each name, and that writing a
-- field is writing an entry.
pub mod Index
pub mod Setters
pub mod Lines
pub mod Refine
pub mod Rows
pub mod Render
pub mod Files
pub mod Amounts
use procstats.Base.{ℕ, List, Option, none, some, Bytes, get_elem?, lookup}
use procstats.Pparser.Index.{LineKvFileParser}
use procstats.Pparser.Setters.{entries_at}
use procstats.Pparser.Types.{Scalar, Value, scalar_value, map_value, opaque_value, Struct}

-- A dictionary of a file: the value that each name has.
abbrev pub Dict : Type 0 → Type 0
Dict F = Bytes → Option (Scalar F)

module _ {F : Type 0} where
  abbrev pub scalar_in : Option (Value F) → Option (Scalar F)
  scalar_in (some (scalar_value v)) = some v
  scalar_in _ = none

  abbrev pub unknown_view : Option ℕ → Struct F → Bytes → Option (Scalar F)
  unknown_view none out name = none
  unknown_view (some u) out name = lookup name (entries_at out u)

  -- What the struct says of a name: its field if it has one, or the entry in the map of unknown names.
  unfoldable pub view : LineKvFileParser → Struct F → Dict F
  view p out name = elim (lookup name p.idx) [
    | some i ↦ scalar_in (get_elem? out i)
    | none ↦ unknown_view p.unknown_idx out name
  ]
