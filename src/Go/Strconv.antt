-- ===== src/Go/Strconv.antt =====
-- Go's `strconv`: `ParseUint` and `ParseInt` in a base up to ten, and the decimal print.
pub mod Decimal
pub mod Text
pub mod Range
use procstats.Base.{
  equal, codes, ◌||◌, ℕ, zero, suc, ◌+◌, ◌-◌, ◌*◌, ◌/◌, ◌%◌, ◌^◌, Bool, true, false, ◌||◌, [], ◌∷◌,
  Option, none, some, ltb, leb, ◌==◌, if◌then◌else◌, Bytes,
}
use procstats.Base.Int.{ℤ, pos, negsuc}

-- The digits behind the number `n`; `none` is a byte that is no digit, or a value above `limit`.
unfoldable pub scan : ℕ → ℕ → ℕ → Bytes → Option ℕ
scan base limit n [] = some n
scan base limit n (c ∷ s) =
    let m = n * base + (c - b'0') in
    let rest = scan base limit m s in
    if ltb c b'0' || leb (b'0' + base) c then none else if ltb limit m then none else rest

-- `strconv.ParseUint(s, base, bits)`.
unfoldable pub parse_uint : ℕ → ℕ → Bytes → Option ℕ
unfolding scan
parse_uint base bits [] = none
parse_uint base bits (c ∷ s) = scan base (2 ^ bits - 1) 0 (c ∷ s)

-- `-n`, as an integer.
abbrev pub neg : ℕ → ℤ
neg zero = pos 0
neg (suc n) = negsuc n

abbrev pub within_int : ℕ → Bool → ℕ → Option ℤ
within_int bits false n = if leb (2 ^ (bits - 1)) n then none else some (pos n)
within_int bits true n = if ltb (2 ^ (bits - 1)) n then none else some (neg n)

abbrev pub with_sign : ℕ → Bool → Option ℕ → Option ℤ
with_sign bits minus none = none
with_sign bits minus (some n) = within_int bits minus n

-- `strconv.ParseInt(s, 10, bits)`. `strconv.Atoi` is the same with 64 bits.
unfoldable pub parse_int : ℕ → Bytes → Option ℤ
unfolding parse_uint
parse_int bits [] = none
parse_int bits (c ∷ s) =
    if c == b'+'
    then with_sign bits false (parse_uint 10 bits s)
    else if c == b'-'
    then with_sign bits true (parse_uint 10 bits s)
    else with_sign bits false (parse_uint 10 bits (c ∷ s))

-- The decimal digits of `n` before `out`; `f` bounds their number.
unfoldable pub digits : ℕ → ℕ → Bytes → Bytes
digits zero n out = out
digits (suc f) n out =
    let shown = (b'0' + n % 10) ∷ out in
    let rest = digits f (n / 10) shown in if ltb n 10 then shown else rest

-- `strconv.FormatUint(n, 10)` for a `uint64`, which has twenty digits at most.
unfoldable pub format_uint : ℕ → Bytes
unfolding digits
format_uint n = digits 20 n []

-- `strconv.FormatInt(z, 10)`.
unfoldable pub format_int : ℤ → Bytes
unfolding format_uint
format_int (pos n) = format_uint n
format_int (negsuc n) = b'-' ∷ format_uint (suc n)

-- `strconv.ParseBool`
unfoldable pub parse_bool : Bytes → Option Bool
parse_bool s =
    if equal s (codes "1")
      || equal s (codes "t")
      || equal s (codes "T")
      || equal s (codes "TRUE")
      || equal s (codes "true")
      || equal s (codes "True")
    then some true
    else if equal s (codes "0")
        || equal s (codes "f")
        || equal s (codes "F")
        || equal s (codes "FALSE")
        || equal s (codes "false")
        || equal s (codes "False")
    then some false
    else none
