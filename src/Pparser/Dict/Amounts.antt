-- ===== src/Pparser/Dict/Amounts.antt =====
-- The integer fields of a struct after a file of numbers, by the names of the lines.
use procstats.Base.{
  ℕ, ◌≡◌, ◌≢◌, refl, ◌∙◌, Bool, true, false, List, [], ◌∷◌, Option, some, Bytes, length, equal,
  lookup, All, if◌then◌else◌,
}
use procstats.Base.Int.{ℤ, pos}
use procstats.Go.Float.{Float64}
use procstats.Pparser.Dict.Files.{AllSigned, field_kind-AllSigned, int_field-view, parse-render}
use procstats.Pparser.Dict.Render.{Item, amount, render, IsItem, written}
use procstats.Pparser.Dict.Setters.{write}
use procstats.Pparser.Dict.{Dict, view}
use procstats.Pparser.Fields.{position, int_field}
use procstats.Pparser.Index.{LineKvFileParser, new_parser}
use procstats.Pparser.Parse.{parse}
use procstats.Pparser.Setters.{done, field_kind}
use procstats.Pparser.Types.{arm, signed, Field, Scalar, int_value, Struct}

-- The amount of the last line with this name, or `z` if there is none.
abbrev pub last_amount : Bytes → List Item → ℤ → ℤ
last_amount name [] z = z
last_amount name (i ∷ is) z = last_amount name is (if equal i.name name then amount i else z)

-- The amount of a name's last line, 0 if there is none.
abbrev pub amount_of : List Item → Bytes → ℤ
amount_of is name = last_amount name is (pos 0)

module _ (fl : Float64) where
  write-amount :
      (b : Bool) (v z : ℤ) (d : Option (Scalar fl.Carrier))
      → d ≡ some (int_value z)
      → (if b then some (int_value v) else d) ≡ some (int_value (if b then v else z))
  write-amount true v z d e = refl
  write-amount false v z d e = e

  written-last_amount :
      (name : Bytes) (is : List Item) (z : ℤ) (d : Dict fl.Carrier)
      → d name ≡ some (int_value z)
      → written fl is d name ≡ some (int_value (last_amount name is z))
  written-last_amount name [] z d e = e
  written-last_amount name (i ∷ is) z d e =
      written-last_amount name is _ (write d i.name (int_value (amount i)))
        (write-amount (equal i.name name) (amount i) z (d name) e)

  items-All :
      (p : LineKvFileParser) (k : ℕ) (is : List Item)
      → AllSigned p
      → All (IsItem k) is
      → All (λ i. IsItem k i × (arm (field_kind p i.name) ≡ signed 64)) is
  items-All p k [] s h = tt
  items-All p k (i ∷ is) s (h, hs) = ((h, field_kind-AllSigned p i.name s), items-All p k is s hs)

  -- A struct that has for a name with an integer field the amount of its last line.
  abbrev pub HasAmounts :
      List Field → ℕ → List Item → Struct fl.Carrier → Struct fl.Carrier → Type 0
  HasAmounts t k is start out =
      (name field : Bytes)
      → lookup name (new_parser t (k ∷ [])).idx ≡ some (position field t)
      → view (new_parser t (k ∷ [])) start name ≡ some (int_value (pos 0))
      → int_field t field out ≡ last_amount name is (pos 0)

  pub parse-HasAmounts :
      (t : List Field) (k : ℕ) (is : List Item) (start : Struct fl.Carrier)
      → length start ≡ length t
      → k ≢ b'\n'
      → AllSigned (new_parser t (k ∷ []))
      → All (IsItem k) is
      → (out : Struct fl.Carrier) × (parse fl (new_parser t (k ∷ [])) (render k is) start
          ≡ done out)
        × HasAmounts t k is start out
  unfolding new_parser
  parse-HasAmounts t k is start l n s h =
      let p = new_parser t (k ∷ []) in
      let (out, e, same) = parse-render fl t k is start l n (items-All p k is s h) in
      (
        out,
        e,
        λ name field i v.
            int_field-view p out name field _ i
              (same name ∙ written-last_amount name is (pos 0) (view p start) v),
      )
