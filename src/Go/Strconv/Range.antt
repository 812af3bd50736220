-- ===== src/Go/Strconv/Range.antt =====
-- What `ParseInt` gives fits the width.
use procstats.Base.{ℕ, zero, suc, ◌∷◌, [], ◌≡◌, Option, none, some, Bool, true, false, arith, Bytes}
use procstats.Base.Int.{ℤ, IsInt64}
use procstats.Go.Strconv.{parse_int, parse_uint, with_sign}

with_sign-IsInt64 :
    (minus : Bool) (o : Option ℕ) (z : ℤ) → with_sign 64 minus o ≡ some z → IsInt64 z
with_sign-IsInt64 minus none z e = ground arith
with_sign-IsInt64 true (some zero) z e = ground arith
with_sign-IsInt64 true (some (suc n)) z e = ground arith
with_sign-IsInt64 false (some n) z e = ground arith

pub parse_int-IsInt64 : (s : Bytes) (z : ℤ) → parse_int 64 s ≡ some z → IsInt64 z
unfolding parse_int
parse_int-IsInt64 [] z e = ground arith
parse_int-IsInt64 (c ∷ s) z e = ground (
  arith,
  with_sign-IsInt64 false (parse_uint 10 64 s) z,
  with_sign-IsInt64 true (parse_uint 10 64 s) z,
  with_sign-IsInt64 false (parse_uint 10 64 (c ∷ s)) z,
)
