-- ===== src/Processes/Darwin/Times.antt =====
-- When the times that Darwin's `readProcessCPUTime` gives are exact.
use native.Mathlib.Decide.{dec_lt}
use native.Mathlib.Nat.{lt-div-mul-add, div-mul-le_self}
use procstats.Base.{
  zero, refl, sym, ap, ◌∙◌, some, ℕ, suc, ◌+◌, ◌*◌, ◌/◌, ◌^◌, ◌≤◌, ◌<◌, ◌≡◌, ◌↔◌, ◌≢◌, arith, ok,
}
use procstats.Base.Int.Wrap.{wrap64_pos}
use procstats.Base.Int.{ℤ, pos, negsuc, ◌*ℤ◌, wrap64, wrap32}
use procstats.Go.Strconv.{neg}
use procstats.Processes.CpuTime.{CpuTime}
use procstats.Processes.Darwin.{TaskInfo, ProcPidinfo, task_info, total_time, read_process_cpu_time}
use procstats.Processes.Stat.{quot}

-- The product of a total wraps around as if the total had not.
product_wraps :
    (total : ℕ)
    → total < 2 ^ 64
    → wrap64 (wrap64 (pos total) *ℤ pos 1000000000) ≡ wrap64 (pos (total * 1000000000))
unfolding wrap64 ◌*ℤ◌
product_wraps total h = ground arith

-- What is left of a number behind the range: a negative one, or one that is 2^64 less at least.
Far : ℕ → ℤ → Type 0
Far x (pos v) = v + 2 ^ 64 ≤ x
Far x (negsuc v) = 2 ^ 63 ≤ x

wrap64-Far : (x : ℕ) → 2 ^ 63 ≤ x → Far x (wrap64 (pos x))
unfolding Far wrap64
wrap64-Far x h = ground arith

neg-ne-pos : (n m : ℕ) → 0 < m → neg n ≢ pos m
neg-ne-pos zero m h e = ground arith
neg-ne-pos (suc n) m h e = cc

task_info_filled :
    (info_size : ℕ) (proc_pidinfo : ProcPidinfo) (pid : ℤ) (nb : ℕ) (ti : TaskInfo)
    → proc_pidinfo (wrap32 pid) ≡ (pos nb, ti)
    → 1 ≤ nb
    → info_size ≤ nb
    → task_info info_size proc_pidinfo pid ≡ some ti
unfolding task_info
task_info_filled info_size proc_pidinfo pid nb ti e p q = rw e (ground arith)

module _ (tick : ℕ) (positive : 0 < tick) (small : tick ≤ 2 ^ 63) where
  over : (x : ℕ) → 2 ^ 63 ≤ x → 0 < x / tick
  over x h = elim (dec_lt 0 (x / tick)) [
    | yes p ↦ p
    | no p ↦
        let none_left : x / tick ≡ 0 = omega arith in
        absurd (omega (arith, lt-div-mul-add {a = x} positive, ap (λ (t : ℕ). t * tick) none_left))
  ]

  quot-Far : (x : ℕ) (w : ℤ) → Far x w → quot w tick ≢ pos (x / tick)
  unfolding Far
  quot-Far x (pos v) h e =
      let same : v / tick ≡ x / tick = ground arith in
      omega (
        arith,
        lt-div-mul-add {a = x} positive,
        div-mul-le_self v tick,
        ap (λ (t : ℕ). t * tick) same,
      )
  quot-Far x (negsuc v) h e = neg-ne-pos (suc v / tick) (x / tick) (over x h) e

  -- The time is the quotient in full exactly if the product fits an int64.
  total_time_iff :
      (total : ℕ)
      → total < 2 ^ 64
      → (total_time tick total ≡ pos (total * 1000000000 / tick)) ↔ (total * 1000000000 < 2 ^ 63)
  unfolding total_time
  total_time_iff total h = (
    λ e. elim (dec_lt (total * 1000000000) (2 ^ 63)) [
      | yes p ↦ p
      | no p ↦ absurd (
          quot-Far (total * 1000000000) (wrap64 (pos (total * 1000000000)))
            (wrap64-Far (total * 1000000000) (omega arith))
            (ap (λ w. quot w tick) (sym (product_wraps total h)) ∙ e))
    ],
    λ p. ap (λ w. quot w tick) (product_wraps total h ∙ wrap64_pos (total * 1000000000) p),
  )

  -- Where `proc_pidinfo` fills its struct, `readProcessCPUTime` gives each total as its quotient by the
  -- clock tick, in full, exactly if its product with a second fits an int64; the tick is positive and
  -- at most 2^63.
  pub read_process_cpu_time_exact :
      (info_size : ℕ) (proc_pidinfo : ProcPidinfo) (pid : ℤ) (nb : ℕ) (ti : TaskInfo)
      → proc_pidinfo (wrap32 pid) ≡ (pos nb, ti)
      → 1 ≤ nb
      → info_size ≤ nb
      → ti.total_user < 2 ^ 64
      → ti.total_system < 2 ^ 64
      → (t : CpuTime) × (read_process_cpu_time info_size proc_pidinfo tick pid ≡ ok t)
        × ((t.utime ≡ pos (ti.total_user * 1000000000 / tick))
            ↔ (ti.total_user * 1000000000 < 2 ^ 63))
        × ((t.stime ≡ pos (ti.total_system * 1000000000 / tick))
            ↔ (ti.total_system * 1000000000 < 2 ^ 63))
  unfolding read_process_cpu_time
  read_process_cpu_time_exact info_size proc_pidinfo pid nb ti e p q hu hs = (
    record { utime = total_time tick ti.total_user; stime = total_time tick ti.total_system },
    rw (task_info_filled info_size proc_pidinfo pid nb ti e p q, read_process_cpu_time) refl,
    total_time_iff ti.total_user hu,
    total_time_iff ti.total_system hs,
  )
