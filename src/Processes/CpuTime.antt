-- ===== src/Processes/CpuTime.antt =====
-- `CPUTime` of pstats.go. A `time.Duration` is an int64.
use procstats.Base.{◌≡◌, Bool, ◌&&◌, arith, ◌==◌}
use procstats.Base.Int.{ℤ, pos, negsuc, ◌+ℤ◌, ◌-ℤ◌, wrap64, pos_part, neg_part, IsInt64}

pub record CpuTime : Type 0 where
  pub utime : ℤ
  pub stime : ℤ

-- `Sub` and `Add`
unfoldable pub sub : CpuTime → CpuTime → CpuTime
sub c other = record {
  utime = wrap64 (c.utime -ℤ other.utime);
  stime = wrap64 (c.stime -ℤ other.stime);
}

unfoldable pub add : CpuTime → CpuTime → CpuTime
add c other = record {
  utime = wrap64 (c.utime +ℤ other.utime);
  stime = wrap64 (c.stime +ℤ other.stime);
}

-- `eq`
unfoldable pub eq : CpuTime → CpuTime → Bool
eq c b =
    pos_part c.utime == pos_part b.utime
    && neg_part c.utime == neg_part b.utime
    && pos_part c.stime == pos_part b.stime
    && neg_part c.stime == neg_part b.stime

abbrev pub IsCpuTime : CpuTime → Type 0
IsCpuTime c = IsInt64 c.utime × IsInt64 c.stime

-- What was taken away comes back, also where the difference wraps around.
wrap64_back : (a b : ℤ) → IsInt64 a → IsInt64 b → wrap64 (wrap64 (a -ℤ b) +ℤ b) ≡ a
unfolding wrap64 ◌+ℤ◌ ◌-ℤ◌
wrap64_back (pos a) (pos b) ha hb = ground arith
wrap64_back (pos a) (negsuc b) ha hb = ground arith
wrap64_back (negsuc a) (pos b) ha hb = ground arith
wrap64_back (negsuc a) (negsuc b) ha hb = ground arith

eq_of_fields : (a b : CpuTime) → a.utime ≡ b.utime → a.stime ≡ b.stime → a ≡ b
eq_of_fields a b u s = cc

-- `Add` undoes `Sub`, for all times of two int64, also where the difference wraps around.
pub add-sub : (c other : CpuTime) → IsCpuTime c → IsCpuTime other → add (sub c other) other ≡ c
unfolding add sub
add-sub c other (cu, cs) (ou, os) =
    eq_of_fields _ c (wrap64_back c.utime other.utime cu ou) (wrap64_back c.stime other.stime cs os)
