-- ===== src/Pparser/Index.antt =====
-- `fieldIndex` and `NewLineKVFileParser` of pparser/proc_human_parser.go.
use procstats.Base.{
  ℕ, suc, List, [], ◌∷◌, Option, none, some, if◌then◌else◌, Bytes, codes, equal, insert,
}
use procstats.Pparser.Types.{Kind, invalid, string, FieldType, mapping, Field}

-- What `fieldIndex` returns. `unknown_idx` is `none` for -1.
pub record FieldIndex : Type 0 where
  pub idx : List (Bytes × ℕ)
  pub unknown_idx : Option ℕ
  pub unknown_kind : Kind

-- The `skip,unknown` field counts only if its type is a map from strings.
unfoldable pub index_unknown : ℕ → FieldType → FieldIndex → FieldIndex
index_unknown i (mapping string elem) x = record x { unknown_idx = some i; unknown_kind = elem }
index_unknown i _ x = x

-- The round of the loop for field `i`.
unfoldable pub index_field : ℕ → Field → FieldIndex → FieldIndex
unfolding index_unknown
index_field i f x = elim f.tag [
  | none ↦ record x { idx = insert f.name i x.idx }
  | some limits_tag ↦
      if equal limits_tag (codes "skip,unknown")
      then index_unknown i f.type x
      else if equal limits_tag (codes "skip")
      then x
      else record x { idx = insert limits_tag i x.idx }
]

unfoldable pub index_fields : ℕ → List Field → FieldIndex → FieldIndex
unfolding index_field
index_fields i [] x = x
index_fields i (f ∷ fs) x = index_fields (suc i) fs (index_field i f x)

unfoldable pub field_index : List Field → FieldIndex
unfolding index_fields
field_index t = index_fields 0 t (record { idx = []; unknown_idx = none; unknown_kind = invalid })

-- `LineKVFileParser`: the index, the separator and the struct type.
pub record LineKvFileParser : Type 0 where
  pub index : FieldIndex
  pub open index use {idx, unknown_idx, unknown_kind}
  pub split_key : Bytes
  pub struct_type : List Field

-- `NewLineKVFileParser(t, splitKey)`
unfoldable pub new_parser : List Field → Bytes → LineKvFileParser
new_parser t split_key = record { index = field_index t; split_key = split_key; struct_type = t }
