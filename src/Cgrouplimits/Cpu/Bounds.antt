-- ===== src/Cgrouplimits/Cpu/Bounds.antt =====
-- The number of CPUs that `CPU` gives.
use procstats.Base.{ℕ, ◌≡◌, false, arith, Result, ok, err}
use procstats.Base.Int.{pos}
use procstats.Cgrouplimits.Cpu.{le, choose_limit, cpu}
use procstats.Cgrouplimits.Platform.{Platform}
use procstats.Go.Float.{Float64}

module _ (fl : Float64) (irrefl : (a : fl.Carrier) → fl.lt a a ≡ false) where
  open fl use {Carrier, of_int, lt}

  -- At most `most`, and positive.
  abbrev pub IsCpus : Carrier → Carrier → Type 0
  IsCpus most v = (lt most v ≡ false) × (le fl v (of_int (pos 0)) ≡ false)

  choose_limit-IsCpus :
      {E : Type 0} (most : Carrier) (r : Result E Carrier)
      → le fl most (of_int (pos 0)) ≡ false
      → IsCpus most (choose_limit fl most r)
  unfolding choose_limit
  choose_limit-IsCpus most (err e) h = (irrefl most, h)
  choose_limit-IsCpus most (ok v) h = ground (arith, irrefl most)

  -- `CPU` gives a positive number that the CPUs of the process are not less than, on every platform and
  -- whatever the limit of the cgroups: no float64 is less than itself, and the process has a CPU.
  pub cpu-IsCpus :
      (num_cpu : ℕ) (p : Platform Carrier)
      → le fl (of_int (pos num_cpu)) (of_int (pos 0)) ≡ false
      → IsCpus (of_int (pos num_cpu)) (cpu fl num_cpu p)
  unfolding cpu
  cpu-IsCpus num_cpu p h = choose_limit-IsCpus (of_int (pos num_cpu)) p.cpu_limit h
