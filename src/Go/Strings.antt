-- ===== src/Go/Strings.antt =====
-- The functions of Go's `strings` and `bytes` that the program calls, over the bytes of a string.
-- Separators are not empty at any call, and `split` is called with one byte alone.
pub mod Cut
pub mod Prefix
use mathlib.Core.Option
use procstats.Base.{
  ◌+◌, ◌&&◌, leb, ℕ, zero, suc, Bool, true, false, List, [], ◌∷◌, reverse, Option, none, some, ◌==◌,
  if◌then◌else◌, Bytes,
}

-- What follows the prefix `p`, if `s` begins with it.
unfoldable pub strip_prefix : Bytes → Bytes → Option Bytes
strip_prefix [] s = some s
strip_prefix (x ∷ p) [] = none
strip_prefix (x ∷ p) (c ∷ s) = let rest = strip_prefix p s in if x == c then rest else none

abbrev pub is_some {ℓ} : {A : Type ℓ} → Option A → Bool
is_some none = false
is_some (some _) = true

-- `strings.HasPrefix(s, p)`, the prefix first.
unfoldable pub has_prefix : Bytes → Bytes → Bool
unfolding strip_prefix
has_prefix p s = is_some (strip_prefix p s)

-- What stands before the suffix `p`, if `s` ends with it.
unfoldable pub strip_suffix : Bytes → Bytes → Option Bytes
unfolding strip_prefix
strip_suffix p s = Option.map reverse (strip_prefix (reverse p) (reverse s))

-- `strings.TrimSuffix(s, p)`, the suffix first.
unfoldable pub trim_suffix : Bytes → Bytes → Bytes
unfolding strip_suffix
trim_suffix p s = elim (strip_suffix p s) [ none ↦ s | some r ↦ r ]

abbrev pub push_first : ℕ → Bytes × Bytes → Bytes × Bytes
push_first c (a, b) = (c ∷ a, b)

-- `strings.SplitN(s, sep, 2)` where it gives two parts; `none` where `sep` does not occur.
unfoldable pub cut : Bytes → Bytes → Option (Bytes × Bytes)
unfolding strip_prefix
cut sep [] = none
cut sep (c ∷ s) =
    let later = Option.map (push_first c) (cut sep s) in
    elim (strip_prefix sep (c ∷ s)) [ some rest ↦ some ([], rest) | none ↦ later ]

-- `strings.SplitN(s, sep, n)` for a positive `n`.
unfoldable pub split_n : ℕ → Bytes → Bytes → List Bytes
unfolding cut
split_n zero sep s = []
split_n (suc zero) sep s = s ∷ []
split_n (suc (suc n)) sep s = elim (cut sep s) [
  | none ↦ s ∷ []
  | some (a, b) ↦ a ∷ split_n (suc n) sep b
]

abbrev pub push_head : ℕ → List Bytes → List Bytes
push_head c [] = (c ∷ []) ∷ []
push_head c (p ∷ ps) = (c ∷ p) ∷ ps

-- `strings.Split(s, sep)` for a separator of one byte.
unfoldable pub split : ℕ → Bytes → List Bytes
split sep [] = [] ∷ []
split sep (c ∷ s) = let rest = split sep s in if c == sep then [] ∷ rest else push_head c rest

-- The results of `bytes.Buffer.ReadString('\n')` until it gives nothing: the lines, each with its
-- newline, and what stands behind the last newline if that is not empty.
unfoldable pub lines : Bytes → List Bytes
lines [] = []
lines (c ∷ s) = let rest = lines s in if c == b'\n' then (c ∷ []) ∷ rest else push_head c rest

-- What stands before the last `k`: `s[:strings.LastIndexByte(s, k)]`.
unfoldable pub before_last : ℕ → Bytes → Option Bytes
before_last k [] = none
before_last k (c ∷ s) = elim (before_last k s) [
  | some b ↦ some (c ∷ b)
  | none ↦ if c == k then some [] else none
]

-- `strings.TrimLeft(s, cutset)` for a cutset of one byte.
unfoldable pub trim_left : ℕ → Bytes → Bytes
trim_left k [] = []
trim_left k (c ∷ s) = let rest = trim_left k s in if c == k then rest else c ∷ s

-- `strings.ToLower`, as far as the result is ASCII: the runes U+0130 and U+212A have the lower case
-- letters `i` and `k`, and no other rune outside of ASCII has one in ASCII.
unfoldable pub lower : Bytes → Bytes
lower [] = []
lower (a ∷ []) = (if leb b'A' a && leb a b'Z' then a + 32 else a) ∷ []
lower (a ∷ b ∷ []) =
    let one = (if leb b'A' a && leb a b'Z' then a + 32 else a) ∷ lower (b ∷ []) in
    if a == 0xc4 && b == 0xb0 then b'i' ∷ [] else one
lower (a ∷ b ∷ c ∷ s) =
    let one = (if leb b'A' a && leb a b'Z' then a + 32 else a) ∷ lower (b ∷ c ∷ s) in
    let two = b'i' ∷ lower (c ∷ s) in
    let three = b'k' ∷ lower s in
    if a == 0xc4 && b == 0xb0
    then two
    else if a == 0xe2 && b == 0x84 && c == 0xaa
    then three
    else one
