-- ===== src/Cgrouplimits/MemUsage/Least.antt =====
-- `GetCgroupMemoryStats` gives the statistics of the cgroup with the least limit.
use mathlib.Core.List.{foldl, Memᴰ}
use procstats.Base.{
  ℕ, suc, ◌-◌, ◌^◌, ◌≡◌, ◌⊎◌, inl, inr, refl, ap, ◌∙◌, true, false, List, [], ◌∷◌, none, some, map,
  arith, Bytes, codes, All, Result, ok, err, length, ltb,
}
use procstats.Base.Int.{ℤ, to_uint64}
use procstats.Cgresolver.CgPath.Walk.{
  IsName, directory, at, visited, names_length, for_ancestors-visited,
}
use procstats.Cgresolver.CgPath.{CgMode, CGroupPath, Stop}
use procstats.Cgresolver.ProcCgroup.Resolve.{self_subsystem_path}
use procstats.Cgrouplimits.MemUsage.{
  MemoryStats, no_stats, SingleError, Error, leaf_failed, stopped, is_limited,
  get_cgroup_memory_stats_single, memory_start, found_memory_stats, memory_stats_from,
  get_cgroup_memory_stats,
}
use procstats.Cgrouplimits.Search.Errors.{IsFailed, first_error, first_error-some, rounds-Left}
use procstats.Cgrouplimits.Search.Least.{IsStrict, IsBelow, rounds, rounds-IsBelow, rounds-IsKept}
use procstats.Cgrouplimits.Search.{Search, search_round}
use procstats.Go.Files.{FileSystem}
use procstats.Go.Float.{Float64}
use procstats.Go.Strings.{trim_suffix}

abbrev pub Read : Type 0
Read = Result SingleError (MemoryStats × ℤ)

pub ltb-IsStrict : IsStrict ltb
ltb-IsStrict = record { irrefl = λ a. ground arith; trans = λ a b c h k. ground arith }

-- What the loop makes of the reads, from the cgroup outwards.
pub data IsStatsOf (rs : List Read) : Result Error MemoryStats → Type 0 where
  -- No cgroup can be read: the error is that of the first.
  none_read :
      {e : SingleError}
      → All IsFailed rs
      → first_error rs ≡ some e
      → IsStatsOf rs (err (leaf_failed e))
  -- Some cgroup was read: the statistics are of one whose limit is least, or empty if none has a limit.
  least :
      {stats : MemoryStats} {n : ℕ} {v : MemoryStats × ℤ}
      → Memᴰ (ok v) rs
      → All (IsBelow is_limited to_uint64 ltb ltb-IsStrict n) rs
      → ((n ≡ 2 ^ 64 - 1) × (stats ≡ no_stats))
        ⊎ ((lim : ℤ) × Memᴰ (ok (stats, lim)) rs × (is_limited lim ≡ true) × (to_uint64 lim ≡ n))
      → IsStatsOf rs (ok stats)

module _ (fl : Float64) where
  -- The loop's variables after the reads.
  abbrev searched : List Read → Search ℕ MemoryStats SingleError
  searched rs = rounds is_limited to_uint64 ltb ltb-IsStrict rs (memory_start fl)

  found_failed :
      (s : Search ℕ MemoryStats SingleError) (e : SingleError)
      → s.all_failed ≡ true
      → s.leaf_cg_read_err ≡ some e
      → found_memory_stats fl s ≡ err (leaf_failed e)
  found_failed s e f h = rw (f, h) refl

  found_read :
      (s : Search ℕ MemoryStats SingleError)
      → s.all_failed ≡ false
      → found_memory_stats fl s ≡ ok s.min_stats
  found_read s f = rw f refl

  found-IsStatsOf :
      (r : Read) (rs : List Read) → IsStatsOf (r ∷ rs) (found_memory_stats fl (searched (r ∷ rs)))
  found-IsStatsOf r rs =
      elim (rounds-Left is_limited to_uint64 ltb (r ∷ rs) (2 ^ 64 - 1) no_stats none) [
        | inl (h, f, x) ↦
            let (e, q) = first_error-some r rs h in
            rw (found_failed (searched (r ∷ rs)) e f (x ∙ q)) (none_read h q)
        | inr (f, v, m) ↦ rw (found_read (searched (r ∷ rs)) f) (
            least m
              (rounds-IsBelow is_limited to_uint64 ltb ltb-IsStrict (r ∷ rs) (memory_start fl))
              (rounds-IsKept is_limited to_uint64 ltb ltb-IsStrict (r ∷ rs) (memory_start fl)))
      ]

  module _ (files : FileSystem) where
    -- The statistics of the cgroups on a way.
    abbrev pub stats_read : List CGroupPath → List Read
    stats_read ps = map (λ p. get_cgroup_memory_stats_single fl files p) ps

    rounds-map :
        (ps : List CGroupPath) (s : Search ℕ MemoryStats SingleError)
        → foldl
            (λ t p.
              search_round is_limited to_uint64 ltb (get_cgroup_memory_stats_single fl files p) t)
            s
            ps
          ≡ rounds is_limited to_uint64 ltb ltb-IsStrict (stats_read ps) s
    rounds-map [] s = refl
    rounds-map (p ∷ ps) s =
        rounds-map ps
          (search_round is_limited to_uint64 ltb (get_cgroup_memory_stats_single fl files p) s)

    module _ (m : Bytes) (bare : trim_suffix (codes "/") m ≡ m) (mode : CgMode) where
      visited-IsStatsOf :
          (mnt : Bytes) (cs : List Bytes)
          → IsStatsOf
              (stats_read (visited m mode mnt cs))
              (found_memory_stats fl (searched (stats_read (visited m mode mnt cs))))
      visited-IsStatsOf mnt [] = found-IsStatsOf _ _
      visited-IsStatsOf mnt (c ∷ cs) = found-IsStatsOf _ _

      memory_stats_from-visited :
          (mnt : Bytes) (cs : List Bytes)
          → trim_suffix (codes "/") mnt ≡ m
          → All IsName cs
          → memory_stats_from fl files (at m mode mnt cs)
            ≡ found_memory_stats fl (searched (stats_read (visited m mode mnt cs)))
      unfolding memory_stats_from
      memory_stats_from-visited mnt cs e h =
          let body : Result Stop (Search ℕ MemoryStats SingleError) → Result Error MemoryStats =
            λ o. elim o [ err e ↦ err (stopped e) | ok s ↦ found_memory_stats fl s ] in
          ap body (
            for_ancestors-visited m bare mode
              (λ p s.
                search_round is_limited to_uint64 ltb (get_cgroup_memory_stats_single fl files p) s)
              (suc (length (directory m cs))) mnt cs (memory_start fl) e h
              (omega (arith, names_length m cs)))
          ∙ ap (found_memory_stats fl) (rounds-map (visited m mode mnt cs) (memory_start fl))

      -- Where the process's memory cgroup lies below a mount point, `GetCgroupMemoryStats` returns the
      -- statistics of a cgroup on the way out whose limit no other limit on the way is less than, empty
      -- statistics where a cgroup can be read and none has a limit, or the first error where none can be
      -- read. A limit of -1 is none, and others are compared as uint64.
      pub get_cgroup_memory_stats-IsStatsOf :
          (mnt : Bytes) (cs : List Bytes)
          → trim_suffix (codes "/") mnt ≡ m
          → All IsName cs
          → self_subsystem_path files (codes "memory") ≡ ok (at m mode mnt cs)
          → IsStatsOf (stats_read (visited m mode mnt cs)) (get_cgroup_memory_stats fl files)
      unfolding get_cgroup_memory_stats
      get_cgroup_memory_stats-IsStatsOf mnt cs e h r =
          rw (r, get_cgroup_memory_stats, memory_stats_from-visited mnt cs e h)
            (visited-IsStatsOf mnt cs)
