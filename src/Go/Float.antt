-- ===== src/Go/Float.antt =====
-- Go's float64: the operations that the program uses, as a parameter.
use procstats.Base.{ℕ, Bool, Option, Bytes}
use procstats.Base.Int.{ℤ}

pub record Float64 : Type 1 where
  pub Carrier : Type 0
  -- `float64(n)`
  pub of_int : ℤ → Carrier
  pub mul : Carrier → Carrier → Carrier
  pub div : Carrier → Carrier → Carrier
  -- `a < b`, `a == b`
  pub lt : Carrier → Carrier → Bool
  pub eq : Carrier → Carrier → Bool
  -- `math.Inf(+1)`
  pub inf : Carrier
  -- `strconv.ParseFloat(s, 64)`
  pub parse_float : Bytes → Option Carrier
  -- `reflect.Value.OverflowFloat` at a field of this many bits
  pub overflow_float : ℕ → Carrier → Bool
