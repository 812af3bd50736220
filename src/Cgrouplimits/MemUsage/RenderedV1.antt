-- ===== src/Cgrouplimits/MemUsage/RenderedV1.antt =====
-- The v1 branch of `getCGroupMemoryStatsSingle` on the files that the kernel writes.
use procstats.Base.{◌≡◌, refl, ap, List, arith, codes, equal, insert, lookup, All, ok}
use procstats.Base.Int.Wrap.{wrap64-+ℤ_left}
use procstats.Base.Int.{ℤ, ◌+ℤ◌, ◌-ℤ◌, wrap64, wrap32}
use procstats.Cgresolver.CgPath.{CGroupPath}
use procstats.Cgresolver.ProcCgroup.Resolve.{self_subsystem_path}
use procstats.Cgrouplimits.MemLimit.{read_int_val_file}
use procstats.Cgrouplimits.MemStat.{cg1_memory_stat_contents, mem_cgroup_oom_control}
use procstats.Cgrouplimits.MemUsage.New.{parse_new-HasAmounts}
use procstats.Cgrouplimits.MemUsage.{MemoryStats, get_v1_cgroup_ooms, v1_stats, v1_memory_stats}
use procstats.Go.Files.{FileSystem}
use procstats.Go.Float.{Float64}
use procstats.Go.Paths.{join}
use procstats.Pparser.Dict.Amounts.{amount_of, HasAmounts}
use procstats.Pparser.Dict.Files.{AllSigned}
use procstats.Pparser.Dict.Render.{Item, render, IsItem}
use procstats.Pparser.Dict.{view}
use procstats.Pparser.Fields.{zero_struct, int_field}
use procstats.Pparser.Index.{new_parser, field_index}
use procstats.Pparser.Types.{Struct}

memory_stat-AllSigned : AllSigned (new_parser cg1_memory_stat_contents (codes " "))
unfolding new_parser field_index insert equal
memory_stat-AllSigned = (refl, refl)

oom_control-AllSigned : AllSigned (new_parser mem_cgroup_oom_control (codes " "))
unfolding new_parser field_index insert equal
oom_control-AllSigned = (refl, refl)

total_cache_field :
    (fl : Float64) (is : List Item) (out : Struct fl.Carrier)
    → HasAmounts fl cg1_memory_stat_contents b' ' is (zero_struct fl cg1_memory_stat_contents) out
    → int_field cg1_memory_stat_contents (codes "TotalCache") out
      ≡ amount_of is (codes "total_cache")
unfolding zero_struct lookup new_parser field_index equal insert view
total_cache_field fl is out has = has (codes "total_cache") (codes "TotalCache") refl refl

oom_kill_field :
    (fl : Float64) (is : List Item) (out : Struct fl.Carrier)
    → HasAmounts fl mem_cgroup_oom_control b' ' is (zero_struct fl mem_cgroup_oom_control) out
    → int_field mem_cgroup_oom_control (codes "OomKill") out ≡ amount_of is (codes "oom_kill")
unfolding zero_struct lookup new_parser field_index equal insert view
oom_kill_field fl is out has = has (codes "oom_kill") (codes "OomKill") refl refl

-- `getV1CgroupOOMs` reads the kills of the process's own cgroup.
get_v1_cgroup_ooms-render :
    (fl : Float64) (files : FileSystem) (own : CGroupPath) (oom : List Item)
    → self_subsystem_path files (codes "memory") ≡ ok own
    → files (join own.abs_path (codes "memory.oom_control")) ≡ ok (render b' ' oom)
    → All (IsItem b' ') oom
    → get_v1_cgroup_ooms fl files ≡ ok (wrap32 (amount_of oom (codes "oom_kill")))
unfolding get_v1_cgroup_ooms
get_v1_cgroup_ooms-render fl files own oom r e h =
    let (out, p, has) =
      parse_new-HasAmounts fl mem_cgroup_oom_control b' ' oom (omega arith) oom_control-AllSigned
        h in
    rw (r, get_v1_cgroup_ooms, e, p, oom_kill_field fl oom out has) refl

-- The statistics of a v1 cgroup in exact numbers, which wrap around once.
abbrev pub exact_v1_stats : List Item → List Item → ℤ → ℤ → MemoryStats
exact_v1_stats stat oom limit usage = record {
  total = limit;
  free = wrap64 (limit -ℤ usage);
  available = wrap64 (limit -ℤ usage +ℤ amount_of stat (codes "total_cache"));
  oom_kills = wrap32 (amount_of oom (codes "oom_kill"));
}

v1_stats-exact :
    (limit usage cache ooms : ℤ)
    → v1_stats limit usage cache ooms ≡ record {
      total = limit;
      free = wrap64 (limit -ℤ usage);
      available = wrap64 (limit -ℤ usage +ℤ cache);
      oom_kills = ooms;
    }
unfolding v1_stats
v1_stats-exact limit usage cache ooms =
    ap
      (λ a. record {
        total = limit;
        free = wrap64 (limit -ℤ usage);
        available = a;
        oom_kills = ooms;
      })
      (wrap64-+ℤ_left (limit -ℤ usage) cache)

-- For a v1 cgroup whose memory.stat is as the kernel writes it, and the memory.oom_control of the process's
-- own cgroup too, and whose limit and usage can be read, `getCGroupMemoryStatsSingle` gives the limit, what
-- the usage leaves of it, that and the page cache of the whole subtree, and the kills as an int32.
pub v1_memory_stats-render :
    (fl : Float64) (files : FileSystem) (path own : CGroupPath) (stat oom : List Item)
    (limit usage : ℤ)
    → self_subsystem_path files (codes "memory") ≡ ok own
    → files (join own.abs_path (codes "memory.oom_control")) ≡ ok (render b' ' oom)
    → All (IsItem b' ') oom
    → read_int_val_file files path.abs_path (codes "memory.limit_in_bytes") ≡ ok limit
    → read_int_val_file files path.abs_path (codes "memory.usage_in_bytes") ≡ ok usage
    → files (join path.abs_path (codes "memory.stat")) ≡ ok (render b' ' stat)
    → All (IsItem b' ') stat
    → v1_memory_stats fl files path ≡ ok (exact_v1_stats stat oom limit usage, limit)
unfolding v1_memory_stats
v1_memory_stats-render fl files path own stat oom limit usage r o ho l u e h =
    let (out, p, has) =
      parse_new-HasAmounts fl cg1_memory_stat_contents b' ' stat (omega arith) memory_stat-AllSigned
        h in
    rw
      (
        get_v1_cgroup_ooms-render fl files own oom r o ho,
        v1_memory_stats,
        l,
        u,
        e,
        p,
        total_cache_field fl stat out has,
      )
      (ap (λ s. ok (s, limit)) (v1_stats-exact limit usage _ _))
