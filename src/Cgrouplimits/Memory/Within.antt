-- ===== src/Cgrouplimits/Memory/Within.antt =====
-- `MemStats` on Linux: it gives no more memory than any limit on the way from the process's cgroup
-- outwards.
use mathlib.Core.Path.{subst}
use mathlib.Core.List.{Memᴰ}
use procstats.Base.{
  sym, zero, suc, ℕ, ◌-◌, ◌^◌, ◌<◌, ◌≡◌, ◌≢◌, ◌⊎◌, inl, inr, refl, ap, true, false, List, [], ◌∷◌,
  arith, Bytes, codes, All, All-Mem, Result, ok, err, map_err, ltb,
}
use procstats.Base.Int.{ℤ, pos, negsuc, ◌≤ℤ◌, ◌<ℤ◌, to_uint64, IsInt64}
use procstats.Cgresolver.CgPath.Walk.{IsName, at, visited}
use procstats.Cgresolver.CgPath.{CgMode}
use procstats.Cgresolver.ProcCgroup.Resolve.{self_subsystem_path}
use procstats.Cgrouplimits.Host
use procstats.Cgrouplimits.MemUsage.Least.{
  Read, IsStatsOf, none_read, least, ltb-IsStrict, stats_read, get_cgroup_memory_stats-IsStatsOf,
}
use procstats.Cgrouplimits.MemUsage.Totals.{Fits, stats_read-Fits}
use procstats.Cgrouplimits.MemUsage.{
  MemoryStats, no_stats, Error, is_limited, get_cgroup_memory_stats,
}
use procstats.Cgrouplimits.Memory.Choice.{IsChoice, mem_stats-IsChoice}
use procstats.Cgrouplimits.Memory.{mem_stats}
use procstats.Cgrouplimits.Platform.{linux, memory_stats_failed, host_failed}
use procstats.Cgrouplimits.Search.Errors.{IsFailed}
use procstats.Cgrouplimits.Search.Least.{IsBelow}
use procstats.Go.Files.{FileSystem}
use procstats.Go.Float.{Float64}
use procstats.Go.Strings.{trim_suffix}

-- A limit that cannot be read or is none, or one that the total is not above.
abbrev pub IsWithin : MemoryStats → Read → Type 0
IsWithin s (err e) = Unit
IsWithin s (ok (_, limit)) = (limit ≤ℤ pos 0) ⊎ (s.total ≤ℤ limit)

-- The cgroup may have memory.
abbrev pub IsNotZero : Read → Type 0
IsNotZero (err e) = Unit
IsNotZero (ok (_, limit)) = limit ≢ pos 0

-- A total that is no more than a positive limit as a uint64 is so as an int64, and positive.
uint64_order :
    (t : ℤ) (v : ℕ)
    → IsInt64 t
    → t ≢ pos 0
    → v < 2 ^ 63
    → ltb (to_uint64 (pos v)) (to_uint64 t) ≡ false
    → (pos 0 <ℤ t) × (t ≤ℤ pos v)
uint64_order (pos zero) v h z b e = absurd (z refl)
uint64_order (pos (suc n)) v h z b e = ground arith
uint64_order (negsuc n) v h z b e = ground arith

-- The statistics of the cgroups: none has a limit, or they are of one with a least limit.
abbrev IsLeastStats : ℕ → MemoryStats → Type 0
IsLeastStats n cg =
    (n ≡ 2 ^ 64 - 1) ⊎ ((cg.total ≢ pos 0) × IsInt64 cg.total × (to_uint64 cg.total ≡ n))

chosen_total :
    (cg host s : MemoryStats) (limit : ℤ)
    → pos 0 <ℤ cg.total
    → cg.total ≤ℤ limit
    → IsChoice cg host s
    → s.total ≤ℤ limit
chosen_total cg host s limit p h (inl (e, _, _)) = rw e h
chosen_total cg host s limit p h (inr (e, inl q)) = absurd (omega arith)
chosen_total cg host s limit p h (inr (e, inr q)) = rw e (omega arith)

choice-IsWithin :
    (cg host s : MemoryStats) (n : ℕ) (r : Read)
    → IsChoice cg host s
    → IsLeastStats n cg
    → Fits r
    → IsBelow is_limited to_uint64 ltb ltb-IsStrict n r
    → IsWithin s r
choice-IsWithin cg host s n (err e) c l f b = tt
choice-IsWithin cg host s n (ok (x, negsuc v)) c l f b = inl (omega arith)
choice-IsWithin cg host s n (ok (x, pos v)) c l f (inl b) = cc
choice-IsWithin cg host s n (ok (x, pos v)) c (inl e) f (inr b) = absurd (ground arith)
choice-IsWithin cg host s n (ok (x, pos v)) c (inr (z, h, e)) (_, f) (inr b) =
    let (positive, at_most) =
      uint64_order cg.total v h z (f.0)
        (subst (λ k. ltb (to_uint64 (pos v)) k ≡ false) (sym e) b) in
    inr (chosen_total cg host s (pos v) positive at_most c)

choices-IsWithin :
    (cg host s : MemoryStats) (n : ℕ) (rs : List Read)
    → IsChoice cg host s
    → IsLeastStats n cg
    → All Fits rs
    → All (IsBelow is_limited to_uint64 ltb ltb-IsStrict n) rs
    → All (IsWithin s) rs
choices-IsWithin cg host s n [] c l f b = tt
choices-IsWithin cg host s n (r ∷ rs) c l (f, fs) (b, bs) =
    (choice-IsWithin cg host s n r c l f b, choices-IsWithin cg host s n rs c l fs bs)

kept-IsLeastStats :
    (rs : List Read) (n : ℕ) (cg : MemoryStats)
    → All Fits rs
    → All IsNotZero rs
    → ((n ≡ 2 ^ 64 - 1) × (cg ≡ no_stats))
      ⊎ ((lim : ℤ) × Memᴰ (ok (cg, lim)) rs × (is_limited lim ≡ true) × (to_uint64 lim ≡ n))
    → IsLeastStats n cg
kept-IsLeastStats rs n cg f z (inl (e, _)) = inl e
kept-IsLeastStats rs n cg f z (inr (lim, m, _, e)) =
    let (t, i) = All-Mem Fits rs (ok (cg, lim)) m f in
    let positive = All-Mem IsNotZero rs (ok (cg, lim)) m z in inr (rw t (positive, i, e))

-- What is known of the statistics where some cgroup was read.
least_stats :
    (rs : List Read) (x : Result Error MemoryStats) (v : MemoryStats × ℤ)
    → IsStatsOf rs x
    → Memᴰ (ok v) rs
    → All Fits rs
    → All IsNotZero rs
    → (cg : MemoryStats) × (n : ℕ) × (x ≡ ok cg)
      × IsLeastStats n cg
      × All (IsBelow is_limited to_uint64 ltb ltb-IsStrict n) rs
least_stats rs _ v (none_read h _) m f z = absurd (All-Mem IsFailed rs (ok v) m h)
least_stats rs _ v (least {stats} {n} _ b k) m f z =
    (stats, n, refl, kept-IsLeastStats rs n stats f z k, b)

module _ (fl : Float64) (files : FileSystem) (m : Bytes) (bare : trim_suffix (codes "/") m ≡ m)
    (mode : CgMode) where
  -- Where the process's memory cgroup lies below a mount point, the host's memory and some cgroup on the way
  -- out can be read and no cgroup there has the limit 0, `MemStats` gives no more memory than the host has
  -- and than any positive limit on the way.
  pub mem_stats-IsWithin :
      (mnt : Bytes) (cs : List Bytes) (host : MemoryStats) (v : MemoryStats × ℤ)
      → trim_suffix (codes "/") mnt ≡ m
      → All IsName cs
      → self_subsystem_path files (codes "memory") ≡ ok (at m mode mnt cs)
      → Host.host_mem_stats fl files ≡ ok host
      → Memᴰ (ok v) (stats_read fl files (visited m mode mnt cs))
      → All IsNotZero (stats_read fl files (visited m mode mnt cs))
      → (s : MemoryStats) × (mem_stats (linux fl files) ≡ ok s)
        × (s.total ≤ℤ host.total)
        × All (IsWithin s) (stats_read fl files (visited m mode mnt cs))
  mem_stats-IsWithin mnt cs host v e h r hh mem z =
      let way = visited m mode mnt cs in
      let fits = stats_read-Fits fl files way in
      let (cg, n, q, l, b) =
        least_stats (stats_read fl files way) (get_cgroup_memory_stats fl files) v
          (get_cgroup_memory_stats-IsStatsOf fl files m bare mode mnt cs e h r) mem fits z in
      let (s, p, c, t) =
        mem_stats-IsChoice (linux fl files) cg host (ap (map_err memory_stats_failed) q)
          (ap (map_err host_failed) hh) in
      (s, p, t, choices-IsWithin cg host s n (stats_read fl files way) c l fits b)
