-- ===== src/Base/Maps.antt =====
-- Go maps with string keys, as association lists with one entry for each key.
use mathlib.Core.Path.{◌≡◌, refl}
use mathlib.Core.List.{List, [], ◌∷◌}
use mathlib.Core.Option.{Option, none, some}
use native.Mathlib.Omega.{arith}
use procstats.Base.Tests.{Bytes, equal, equal_iff, if◌then◌else◌}

module _ {ℓ} {V : Type ℓ} where
  -- `v, ok := entries[key]`
  unfoldable pub lookup : Bytes → List (Bytes × V) → Option V
  lookup key [] = none
  lookup key (e ∷ entries) =
      let later = lookup key entries in if equal e.0 key then some e.1 else later

  -- `entries[key] = value`
  unfoldable pub insert : Bytes → V → List (Bytes × V) → List (Bytes × V)
  insert key value [] = (key, value) ∷ []
  insert key value (e ∷ entries) =
      let later = e ∷ insert key value entries in
      if equal e.0 key then (key, value) ∷ entries else later

  -- What a write leaves at each key.
  pub lookup-insert :
      (key : Bytes) (value : V) (entries : List (Bytes × V)) (other : Bytes)
      → lookup other (insert key value entries)
        ≡ (if equal key other then some value else lookup other entries)
  unfolding lookup insert
  lookup-insert key value [] other = refl
  lookup-insert key value (e ∷ entries) other = ground (
    arith,
    lookup-insert key value entries other,
    equal_iff e.0 key,
    equal_iff e.0 other,
    equal_iff key other,
  )
