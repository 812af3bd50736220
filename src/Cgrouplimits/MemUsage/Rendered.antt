-- ===== src/Cgrouplimits/MemUsage/Rendered.antt =====
-- The v2 branch of `getCGroupMemoryStatsSingle` on the files that the kernel writes.
use procstats.Base.{◌≡◌, refl, List, arith, codes, equal, insert, lookup, All, ok}
use procstats.Base.Int.{ℤ, ◌+ℤ◌, ◌-ℤ◌, wrap64}
use procstats.Base.Int.Wrap.{wrap64-+ℤ, wrap64-+ℤ_left, wrap64--ℤ_left}
use procstats.Cgresolver.CgPath.{CGroupPath}
use procstats.Cgrouplimits.MemLimit.{read_int_val_file}
use procstats.Cgrouplimits.MemStat.{cg2_memory_stat_contents, cg2_mem_events}
use procstats.Cgrouplimits.MemUsage.New.{parse_new-HasAmounts}
use procstats.Cgrouplimits.MemUsage.{MemoryStats, limit_or_none, v2_stats, v2_memory_stats}
use procstats.Go.Files.{FileSystem, read_in}
use procstats.Go.Float.{Float64}
use procstats.Pparser.Dict.Amounts.{amount_of, HasAmounts}
use procstats.Pparser.Dict.Files.{AllSigned}
use procstats.Pparser.Dict.Render.{Item, render, IsItem}
use procstats.Pparser.Dict.{view}
use procstats.Pparser.Fields.{zero_struct}
use procstats.Pparser.Index.{new_parser, field_index}
use procstats.Pparser.Types.{Struct}

pub memory_stat-AllSigned : AllSigned (new_parser cg2_memory_stat_contents (codes " "))
unfolding new_parser field_index insert equal
memory_stat-AllSigned = (refl, refl)

memory_events-AllSigned : AllSigned (new_parser cg2_mem_events (codes " "))
unfolding new_parser field_index insert equal
memory_events-AllSigned = (refl, refl)

-- The memory that is free or can be made free: what the limit leaves, the swap cache, the clean page
-- cache and the slabs that can be reclaimed.
abbrev available_memory : List Item → ℤ → ℤ → ℤ
available_memory stat limit usage =
    limit
    -ℤ usage
    +ℤ amount_of stat (codes "swapcached")
    +ℤ (amount_of stat (codes "file")
        -ℤ amount_of stat (codes "file_dirty")
        -ℤ amount_of stat (codes "file_writeback"))
    +ℤ amount_of stat (codes "slab_reclaimable")

-- The statistics of a v2 cgroup in exact numbers, which wrap around once.
abbrev pub exact_stats : List Item → List Item → ℤ → ℤ → MemoryStats
exact_stats stat events limit usage = record {
  total = limit;
  free = wrap64 (limit -ℤ usage);
  available = wrap64 (available_memory stat limit usage);
  oom_kills = amount_of events (codes "oom_group_kill");
}

sum_wraps :
    (free cached file dirty writeback slab : ℤ)
    → wrap64 (
        wrap64 (wrap64 (wrap64 free +ℤ cached) +ℤ wrap64 (wrap64 (file -ℤ dirty) -ℤ writeback))
        +ℤ slab)
      ≡ wrap64 (free +ℤ cached +ℤ (file -ℤ dirty -ℤ writeback) +ℤ slab)
sum_wraps free cached file dirty writeback slab =
    rw
      (
        wrap64-+ℤ_left free cached,
        wrap64--ℤ_left (file -ℤ dirty) writeback,
        wrap64-+ℤ (free +ℤ cached) (file -ℤ dirty -ℤ writeback),
      )
      (wrap64-+ℤ_left (free +ℤ cached +ℤ (file -ℤ dirty -ℤ writeback)) slab)

v2_stats-exact :
    (fl : Float64) (stat events : List Item) (out_stat out_events : Struct fl.Carrier)
    (limit usage : ℤ)
    → HasAmounts fl cg2_memory_stat_contents b' ' stat
        (zero_struct fl cg2_memory_stat_contents)
        out_stat
    → HasAmounts fl cg2_mem_events b' ' events (zero_struct fl cg2_mem_events) out_events
    → v2_stats fl limit usage out_stat out_events ≡ exact_stats stat events limit usage
unfolding v2_stats zero_struct lookup new_parser field_index equal insert view
v2_stats-exact fl stat events out_stat out_events limit usage has kills =
    rw
      (
        has (codes "swapcached") (codes "SwapCached") refl refl,
        has (codes "file") (codes "File") refl refl,
        has (codes "file_dirty") (codes "FileDirty") refl refl,
        has (codes "file_writeback") (codes "FileWriteback") refl refl,
        has (codes "slab_reclaimable") (codes "SlabReclaimable") refl refl,
        kills (codes "oom_group_kill") (codes "OOMGroupKill") refl refl,
        sum_wraps (limit -ℤ usage) (amount_of stat (codes "swapcached"))
            (amount_of stat (codes "file")) (amount_of stat (codes "file_dirty"))
            (amount_of stat (codes "file_writeback")) (amount_of stat (codes "slab_reclaimable")),
      )
      refl

-- For a v2 cgroup whose memory.stat and memory.events are as the kernel writes them, and whose usage and
-- limit can be read, `getCGroupMemoryStatsSingle` gives the limit, what the usage leaves of it, the memory
-- that is available, and the group kills: the exact numbers, which wrap around once if at all.
pub v2_memory_stats-render :
    (fl : Float64) (files : FileSystem) (path : CGroupPath) (stat events : List Item)
    (limit usage : ℤ)
    → read_in files path.abs_path (codes "memory.stat") ≡ ok (render b' ' stat)
    → All (IsItem b' ') stat
    → read_in files path.abs_path (codes "memory.events") ≡ ok (render b' ' events)
    → All (IsItem b' ') events
    → read_int_val_file files path.abs_path (codes "memory.current") ≡ ok usage
    → limit_or_none (read_int_val_file files path.abs_path (codes "memory.max")) ≡ ok limit
    → v2_memory_stats fl files path ≡ ok (exact_stats stat events limit usage, limit)
unfolding v2_memory_stats
v2_memory_stats-render fl files path stat events limit usage e h e' h' u l =
    let (out_stat, p, has) =
      parse_new-HasAmounts fl cg2_memory_stat_contents b' ' stat (omega arith) memory_stat-AllSigned
        h in
    let (out_events, p', kills) =
      parse_new-HasAmounts fl cg2_mem_events b' ' events (omega arith) memory_events-AllSigned h' in
    rw
      (
        e,
        v2_memory_stats,
        p,
        e',
        p',
        u,
        l,
        v2_stats-exact fl stat events out_stat out_events limit usage has kills,
      )
      refl
