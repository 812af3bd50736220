-- ===== src/Cgrouplimits/MemUsage/New.antt =====
-- `Parse` into an empty struct, on a file of numbers that is rendered.
use procstats.Base.{ℕ, suc, ◌≡◌, ◌≢◌, refl, ap, List, [], ◌∷◌, length, All, ok}
use procstats.Cgrouplimits.MemUsage.{filled, parse_new}
use procstats.Go.Float.{Float64}
use procstats.Pparser.Dict.Amounts.{HasAmounts, parse-HasAmounts}
use procstats.Pparser.Dict.Files.{AllSigned}
use procstats.Pparser.Dict.Render.{Item, render, IsItem}
use procstats.Pparser.Fields.{zero_struct}
use procstats.Pparser.Index.{new_parser}
use procstats.Pparser.Types.{Field, Struct}

length-zero_struct : (fl : Float64) (t : List Field) → length (zero_struct fl t) ≡ length t
unfolding zero_struct
length-zero_struct fl [] = refl
length-zero_struct fl (f ∷ t) = ap suc (length-zero_struct fl t)

pub parse_new-HasAmounts :
    (fl : Float64) (t : List Field) (k : ℕ) (is : List Item)
    → k ≢ b'\n'
    → AllSigned (new_parser t (k ∷ []))
    → All (IsItem k) is
    → (out : Struct fl.Carrier) × (parse_new fl t (k ∷ []) (render k is) ≡ ok out)
      × HasAmounts fl t k is (zero_struct fl t) out
unfolding parse_new
parse_new-HasAmounts fl t k is n s h =
    let (out, e, has) =
      parse-HasAmounts fl t k is (zero_struct fl t) (length-zero_struct fl t) n s h in
    (out, ap filled e, has)
