-- ===== src/Go/Spaces.antt =====
-- White space: Go's `strings.TrimSpace`, `bytes.TrimSpace` and `strings.Fields`, on UTF-8.
pub mod Words
pub mod Trim
use procstats.Base.{
  ℕ, zero, suc, Bool, ◌&&◌, ◌||◌, List, [], ◌∷◌, ◌++◌, reverse, leb, ◌==◌, if◌then◌else◌, Bytes,
  ◌≡◌, refl,
}

unfoldable pub is_ascii_space : ℕ → Bool
is_ascii_space c = (leb 9 c && leb c 13) || c == 32

-- U+0085 and U+00A0.
abbrev is_space2 : ℕ → ℕ → Bool
is_space2 a b = a == 0xc2 && (b == 0x85 || b == 0xa0)

-- U+1680, U+2000 to U+200A, U+2028, U+2029, U+202F, U+205F and U+3000.
abbrev is_space3 : ℕ → ℕ → ℕ → Bool
is_space3 a b c =
    (a == 0xe1 && b == 0x9a && c == 0x80)
    || (a == 0xe2
        && b == 0x80
        && ((leb 0x80 c && leb c 0x8a) || c == 0xa8 || c == 0xa9 || c == 0xaf))
    || (a == 0xe2 && b == 0x81 && c == 0x9f)
    || (a == 0xe3 && b == 0x80 && c == 0x80)

abbrev width3 : (ℕ → Bool) → Bytes → ℕ
width3 three [] = 0
width3 three (c ∷ s) = if three c then 3 else 0

abbrev width2 : (ℕ → Bool) → (ℕ → ℕ → Bool) → Bytes → ℕ
width2 two three [] = 0
width2 two three (b ∷ s) = if two b then 2 else width3 (three b) s

-- The bytes of the white space rune at the start of a text, 0 if there is none.
unfoldable pub leading : Bytes → ℕ
unfolding is_ascii_space
leading [] = 0
leading (a ∷ s) = if is_ascii_space a then 1 else width2 (is_space2 a) (is_space3 a) s

-- The same at the end of a text that is given backwards.
trailing : Bytes → ℕ
unfolding is_ascii_space
trailing [] = 0
trailing (a ∷ s) =
    if is_ascii_space a then 1 else width2 (λ b. is_space2 b a) (λ b c. is_space3 c b a) s

-- Drops `k` bytes, and then runes as long as `width` finds one.
trim_by : (Bytes → ℕ) → ℕ → Bytes → Bytes
trim_by width k [] = []
trim_by width (suc k) (c ∷ s) = trim_by width k s
trim_by width zero (c ∷ s) = elim (width (c ∷ s)) [ zero ↦ c ∷ s | suc k ↦ trim_by width k s ]

unfoldable pub trim_space : Bytes → Bytes
unfolding trim_by leading trailing
trim_space s = reverse (trim_by trailing 0 (reverse (trim_by leading 0 s)))

abbrev pub flush : Bytes → List Bytes
flush [] = []
flush (c ∷ s) = (c ∷ s) ∷ []

-- `k` bytes of a space are left to drop; `word` is the field read so far.
fields_from : ℕ → Bytes → Bytes → List Bytes
unfolding leading
fields_from k word [] = flush word
fields_from (suc k) word (c ∷ s) = fields_from k word s
fields_from zero word (c ∷ s) = elim (leading (c ∷ s)) [
  | zero ↦ fields_from zero (word ++ c ∷ []) s
  | suc k ↦ flush word ++ fields_from k [] s
]

unfoldable pub fields : Bytes → List Bytes
unfolding fields_from
fields = fields_from 0 []

trim_example :
    trim_space (32 ∷ 0xc2 ∷ 0xa0 ∷ b'a' ∷ 32 ∷ b'b' ∷ 0xe2 ∷ 0x80 ∷ 0x8a ∷ 10 ∷ [])
    ≡ b'a' ∷ 32 ∷ b'b' ∷ []
unfolding trim_space
trim_example = refl
