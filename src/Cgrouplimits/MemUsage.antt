-- ===== src/Cgrouplimits/MemUsage.antt =====
-- `MemoryStats` of cgrouplimits/memory.go, and `GetCgroupMemoryStats` of cgrouplimits/cgroup_linux.go
-- with the functions that it calls.
pub mod New
pub mod Least
pub mod Totals
pub mod Rendered
pub mod RenderedV1
pub mod Kernel
use procstats.Base.{
  map_err, ℕ, zero, suc, ◌-◌, ◌^◌, Bool, true, false, not, ◌==◌, List, Option, none, some, ltb,
  if◌then◌else◌, Bytes, codes, length, Result, ok, err, ◌>>=◌, require,
}
use procstats.Base.Int.{ℤ, pos, negsuc, ◌+ℤ◌, ◌-ℤ◌, wrap64, wrap32, to_uint64}
use procstats.Cgresolver.CgPath.{CgMode, unknown, v1, v2, CGroupPath, Stop, for_ancestors}
use procstats.Cgresolver.ProcCgroup.Resolve
use procstats.Cgresolver.ProcCgroup.Resolve.{self_subsystem_path}
use procstats.Cgrouplimits.MemLimit.{FileError, unreadable, no_integer, read_int_val_file}
use procstats.Cgrouplimits.MemStat.{
  cg1_memory_stat_contents, cg2_memory_stat_contents, cg2_mem_events, mem_cgroup_oom_control,
}
use procstats.Cgrouplimits.Search.{Search, search_round}
use procstats.Go.Files.{ReadError, not_exist, other_error, FileSystem, read_in}
use procstats.Go.Float.{Float64}
use procstats.Go.Paths.{join}
use procstats.Pparser.Fields.{zero_struct, int_field}
use procstats.Pparser.Index.{LineKvFileParser, new_parser}
use procstats.Pparser.Parse.{parse}
use procstats.Pparser.Setters
use procstats.Pparser.Setters.{Outcome, done, failed}
use procstats.Pparser.Types.{Field, Struct}

pub record MemoryStats : Type 0 where
  pub total : ℤ
  pub free : ℤ
  pub available : ℤ
  pub oom_kills : ℤ

-- `MemoryStats{}`
abbrev pub no_stats : MemoryStats
no_stats = record { total = pos 0; free = pos 0; available = pos 0; oom_kills = pos 0 }

-- Where `getV1CgroupOOMs` gives up.
pub data OomError : Type 0 where
  no_memory_cgroup : Resolve.Error → OomError
  control_unreadable : ReadError → OomError
  control_malformed : Setters.Error → OomError

-- Where `getCGroupMemoryStatsSingle` gives up.
pub data SingleError : Type 0 where
  ooms_failed : OomError → SingleError
  limit_failed usage_failed : FileError → SingleError
  stat_unreadable events_unreadable : ReadError → SingleError
  stat_malformed events_malformed : Setters.Error → SingleError
  unknown_type : SingleError

-- Where `GetCgroupMemoryStats` gives up. `nil_error` would be a nil error beside empty statistics.
pub data Error : Type 0 where
  no_cgroup : Resolve.Error → Error
  nil_error : Error
  leaf_failed : SingleError → Error
  stopped : Stop → Error

-- The struct that `Parse` filled, or its error.
abbrev pub filled : {F : Type 0} → Outcome F → Result Setters.Error (Struct F)
filled (done out) = ok out
filled (failed e out) = err e

-- A limit that cannot be read because its file does not exist is -1; another error stands.
unfoldable pub limit_or_none : Result FileError ℤ → Result SingleError ℤ
limit_or_none (ok limit_bytes) = ok limit_bytes
limit_or_none (err (unreadable not_exist)) = ok (negsuc 0)
limit_or_none (err (unreadable other_error)) = err (limit_failed (unreadable other_error))
limit_or_none (err no_integer) = err (limit_failed no_integer)

-- The statistics of a v1 cgroup: limit, usage, TotalCache and the number of kills.
unfoldable pub v1_stats : ℤ → ℤ → ℤ → ℤ → MemoryStats
v1_stats limit_bytes usage_bytes total_cache ooms = record {
  total = limit_bytes;
  free = wrap64 (limit_bytes -ℤ usage_bytes);
  available = wrap64 (wrap64 (limit_bytes -ℤ usage_bytes) +ℤ total_cache);
  oom_kills = ooms;
}

-- `cgLim != -1`
abbrev pub is_limited : ℤ → Bool
is_limited (negsuc zero) = false
is_limited _ = true

module _ (fl : Float64) where
  open fl use {Carrier}

  -- `Parse` into `T{}`.
  unfoldable pub parse_new : List Field → Bytes → Bytes → Result Setters.Error (Struct Carrier)
  parse_new t split_key contents =
      filled (parse fl (new_parser t split_key) contents (zero_struct fl t))

  -- `getV1CgroupOOMs`
  unfoldable pub get_v1_cgroup_ooms : FileSystem → Result OomError ℤ
  unfolding parse_new self_subsystem_path
  get_v1_cgroup_ooms files = do
    mem_path ← map_err no_memory_cgroup (self_subsystem_path files (codes "memory"))
    oom_control ←
        map_err control_unreadable (files (join mem_path.abs_path (codes "memory.oom_control")))
    oomc ← map_err control_malformed (parse_new mem_cgroup_oom_control (codes " ") oom_control)
    ok (wrap32 (int_field mem_cgroup_oom_control (codes "OomKill") oomc))

  -- The v1 branch of `getCGroupMemoryStatsSingle`.
  unfoldable pub v1_memory_stats : FileSystem → CGroupPath → Result SingleError (MemoryStats × ℤ)
  unfolding get_v1_cgroup_ooms v1_stats
  v1_memory_stats files mem_path = do
    ooms ← map_err ooms_failed (get_v1_cgroup_ooms files)
    limit_bytes ←
        map_err limit_failed
          (read_int_val_file files mem_path.abs_path (codes "memory.limit_in_bytes"))
    usage_bytes ←
        map_err usage_failed
          (read_int_val_file files mem_path.abs_path (codes "memory.usage_in_bytes"))
    mst_contents ← map_err stat_unreadable (files (join mem_path.abs_path (codes "memory.stat")))
    cg1_stats ← map_err stat_malformed (parse_new cg1_memory_stat_contents (codes " ") mst_contents)
    let total_cache = int_field cg1_memory_stat_contents (codes "TotalCache") cg1_stats
    ok (v1_stats limit_bytes usage_bytes total_cache ooms, limit_bytes)

  -- The statistics of a v2 cgroup: limit, usage, memory.stat and memory.events.
  unfoldable pub v2_stats : ℤ → ℤ → Struct Carrier → Struct Carrier → MemoryStats
  v2_stats limit_bytes usage_bytes cg2_stats cg2_events =
      let stat = λ (name : Bytes). int_field cg2_memory_stat_contents name cg2_stats in
      let free = wrap64 (limit_bytes -ℤ usage_bytes) in
      let clean = wrap64 (
        wrap64 (stat (codes "File") -ℤ stat (codes "FileDirty")) -ℤ stat (codes "FileWriteback")) in
      record {
        total = limit_bytes;
        free = free;
        available = wrap64 (
            wrap64 (wrap64 (free +ℤ stat (codes "SwapCached")) +ℤ clean)
            +ℤ stat (codes "SlabReclaimable"));
        oom_kills = int_field cg2_mem_events (codes "OOMGroupKill") cg2_events;
      }

  -- The v2 branch.
  unfoldable pub v2_memory_stats : FileSystem → CGroupPath → Result SingleError (MemoryStats × ℤ)
  unfolding parse_new v2_stats limit_or_none
  v2_memory_stats files mem_path = do
    mst_contents ← map_err stat_unreadable (read_in files mem_path.abs_path (codes "memory.stat"))
    cg2_stats ← map_err stat_malformed (parse_new cg2_memory_stat_contents (codes " ") mst_contents)
    mev_contents ←
        map_err events_unreadable (read_in files mem_path.abs_path (codes "memory.events"))
    cg2_events ← map_err events_malformed (parse_new cg2_mem_events (codes " ") mev_contents)
    usage_bytes ←
        map_err usage_failed (read_int_val_file files mem_path.abs_path (codes "memory.current"))
    limit_bytes ← limit_or_none (read_int_val_file files mem_path.abs_path (codes "memory.max"))
    ok (v2_stats limit_bytes usage_bytes cg2_stats cg2_events, limit_bytes)

  -- `getCGroupMemoryStatsSingle`
  unfoldable pub get_cgroup_memory_stats_single :
      FileSystem → CGroupPath → Result SingleError (MemoryStats × ℤ)
  unfolding v1_memory_stats v2_memory_stats
  get_cgroup_memory_stats_single files mem_path = elim mem_path.mode [
    | v1 ↦ v1_memory_stats files mem_path
    | v2 ↦ v2_memory_stats files mem_path
    | unknown ↦ err unknown_type
  ]

  abbrev pub memory_start : Search ℕ MemoryStats SingleError
  memory_start = record {
    min_limit = 2 ^ 64 - 1;
    min_stats = no_stats;
    all_failed = true;
    leaf_cg_read_err = none;
  }

  -- What stands behind the loop.
  abbrev pub found_memory_stats : Search ℕ MemoryStats SingleError → Result Error MemoryStats
  found_memory_stats s =
      if s.all_failed
      then elim s.leaf_cg_read_err [ none ↦ err nil_error | some e ↦ err (leaf_failed e) ]
      else ok s.min_stats

  -- The loop of `GetCgroupMemoryStats`; the length of the path bounds it.
  unfoldable pub memory_stats_from : FileSystem → CGroupPath → Result Error MemoryStats
  unfolding get_cgroup_memory_stats_single search_round for_ancestors
  memory_stats_from files mem_path =
      elim (for_ancestors
        (λ p s. search_round is_limited to_uint64 ltb (get_cgroup_memory_stats_single files p) s)
        (suc (length mem_path.abs_path)) mem_path memory_start) [
          | err e ↦ err (stopped e)
          | ok s ↦ found_memory_stats s
        ]

  -- `GetCgroupMemoryStats`
  unfoldable pub get_cgroup_memory_stats : FileSystem → Result Error MemoryStats
  unfolding memory_stats_from self_subsystem_path
  get_cgroup_memory_stats files = elim (self_subsystem_path files (codes "memory")) [
    | err e ↦ err (no_cgroup e)
    | ok mem_path ↦ memory_stats_from files mem_path
  ]
