-- ===== src/Cgrouplimits/Host/Rendered.antt =====
-- `HostMemStats` on the files /proc/meminfo and /proc/vmstat that the kernel writes.
use procstats.Base.{◌≡◌, refl, List, arith, codes, equal, insert, lookup, All, ok, length}
use procstats.Base.Int.{◌+ℤ◌, wrap64}
use procstats.Cgrouplimits.Host.{
  get_mem_info, get_vm_stat, parse_mem_info, parse_vm_stat, host_stats, host_mem_stats,
}
use procstats.Cgrouplimits.HostMemInfo.{host_mem_info}
use procstats.Cgrouplimits.HostVmStat.{host_vm_stat}
use procstats.Cgrouplimits.MemUsage.{MemoryStats}
use procstats.Go.Files.{FileSystem}
use procstats.Go.Float.{Float64}
use procstats.Pparser.Dict.Amounts.{amount_of, HasAmounts, parse-HasAmounts}
use procstats.Pparser.Dict.Files.{AllSigned}
use procstats.Pparser.Dict.Render.{Item, render, IsItem}
use procstats.Pparser.Dict.{view}
use procstats.Pparser.Fields.{zero_struct, with_map}
use procstats.Pparser.Index.{new_parser, field_index}
use procstats.Pparser.Types.{Field, Struct}

mem_info-AllSigned : AllSigned (new_parser host_mem_info (codes ":"))
unfolding new_parser field_index insert equal
mem_info-AllSigned = (refl, refl)

vm_stat-AllSigned : AllSigned (new_parser host_vm_stat (codes " "))
unfolding new_parser field_index insert equal
vm_stat-AllSigned = (refl, refl)

-- The struct that a caller starts with.
abbrev start : (fl : Float64) → List Field → Struct fl.Carrier
start fl t = with_map t (codes "UnknownFields") (zero_struct fl t)

-- The statistics that the lines of /proc/meminfo and /proc/vmstat tell of.
abbrev pub exact_host_stats : List Item → List Item → MemoryStats
exact_host_stats info stat = record {
  total = wrap64 (amount_of info (codes "MemTotal") +ℤ amount_of info (codes "SwapTotal"));
  free = wrap64 (amount_of info (codes "MemFree") +ℤ amount_of info (codes "SwapFree"));
  available = amount_of info (codes "MemAvailable");
  oom_kills = amount_of stat (codes "oom_kill");
}

host_stats-HasAmounts :
    (fl : Float64) (info stat : List Item) (mi vms : Struct fl.Carrier)
    → HasAmounts fl host_mem_info b':' info (start fl host_mem_info) mi
    → HasAmounts fl host_vm_stat b' ' stat (start fl host_vm_stat) vms
    → host_stats fl mi vms ≡ exact_host_stats info stat
unfolding host_stats zero_struct with_map lookup new_parser field_index equal insert view
host_stats-HasAmounts fl info stat mi vms has kills =
    rw
      (
        has (codes "MemTotal") (codes "MemTotal") refl refl,
        has (codes "SwapTotal") (codes "SwapTotal") refl refl,
        has (codes "MemFree") (codes "MemFree") refl refl,
        has (codes "SwapFree") (codes "SwapFree") refl refl,
        has (codes "MemAvailable") (codes "MemAvailable") refl refl,
        kills (codes "oom_kill") (codes "OomKill") refl refl,
      )
      refl

length-start_info : (fl : Float64) → length (start fl host_mem_info) ≡ length host_mem_info
unfolding zero_struct with_map equal
length-start_info fl = refl

length-start_stat : (fl : Float64) → length (start fl host_vm_stat) ≡ length host_vm_stat
unfolding zero_struct with_map equal
length-start_stat fl = refl

get_mem_info-HasAmounts :
    (fl : Float64) (files : FileSystem) (info : List Item)
    → files (codes "/proc/meminfo") ≡ ok (render b':' info)
    → All (IsItem b':') info
    → (mi : Struct fl.Carrier) × (get_mem_info fl files ≡ ok mi)
      × HasAmounts fl host_mem_info b':' info (start fl host_mem_info) mi
unfolding get_mem_info parse_mem_info
get_mem_info-HasAmounts fl files info e h =
    let (out, p, has) =
      parse-HasAmounts fl host_mem_info b':' info (start fl host_mem_info) (length-start_info fl)
        (omega arith) mem_info-AllSigned h in
    (out, rw (e, get_mem_info, p) refl, has)

get_vm_stat-HasAmounts :
    (fl : Float64) (files : FileSystem) (stat : List Item)
    → files (codes "/proc/vmstat") ≡ ok (render b' ' stat)
    → All (IsItem b' ') stat
    → (vms : Struct fl.Carrier) × (get_vm_stat fl files ≡ ok vms)
      × HasAmounts fl host_vm_stat b' ' stat (start fl host_vm_stat) vms
unfolding get_vm_stat parse_vm_stat
get_vm_stat-HasAmounts fl files stat e h =
    let (out, p, has) =
      parse-HasAmounts fl host_vm_stat b' ' stat (start fl host_vm_stat) (length-start_stat fl)
        (omega arith) vm_stat-AllSigned h in
    (out, rw (e, get_vm_stat, p) refl, has)

-- Where /proc/meminfo and /proc/vmstat are as the kernel writes them, `HostMemStats` gives the sums of memory
-- and swap, the available memory and the number of kills, of the last line of each name.
pub host_mem_stats-render :
    (fl : Float64) (files : FileSystem) (info stat : List Item)
    → files (codes "/proc/meminfo") ≡ ok (render b':' info)
    → All (IsItem b':') info
    → files (codes "/proc/vmstat") ≡ ok (render b' ' stat)
    → All (IsItem b' ') stat
    → host_mem_stats fl files ≡ ok (exact_host_stats info stat)
unfolding host_mem_stats
host_mem_stats-render fl files info stat e h e' h' =
    let (mi, p, has) = get_mem_info-HasAmounts fl files info e h in
    let (vms, p', kills) = get_vm_stat-HasAmounts fl files stat e' h' in
    rw (p, host_mem_stats, p', host_stats-HasAmounts fl info stat mi vms has kills) refl
