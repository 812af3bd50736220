-- ===== src/Cgrouplimits/Host.antt =====
-- The host's memory in cgrouplimits/host_linux.go.
pub mod Rendered
use procstats.Base.{
  map_err, Bool, true, false, ◌&&◌, List, if◌then◌else◌, Bytes, codes, Result, ok, err, ◌>>=◌,
}
use procstats.Base.Int.{ℤ, pos, ◌+ℤ◌, wrap64, ltb_ℤ}
use procstats.Cgrouplimits.HostMemInfo.{host_mem_info}
use procstats.Cgrouplimits.HostVmStat.{host_vm_stat}
use procstats.Cgrouplimits.MemUsage.{MemoryStats, filled}
use procstats.Go.Files.{ReadError, FileSystem}
use procstats.Go.Float.{Float64}
use procstats.Pparser.Fields.{zero_struct, with_map, int_field}
use procstats.Pparser.Index.{new_parser}
use procstats.Pparser.Parse.{parse}
use procstats.Pparser.Setters
use procstats.Pparser.Types.{Field, Struct}

-- Where the functions of the host's memory give up.
pub data HostError : Type 0 where
  mem_info_unreadable vm_stat_unreadable : ReadError → HostError
  mem_info_malformed vm_stat_malformed : Setters.Error → HostError

module _ (fl : Float64) where
  open fl use {Carrier}

  -- `parseMemInfo` and `parseVMStat`, whose structs have a map from the start.
  unfoldable pub parse_mem_info : Bytes → Result Setters.Error (Struct Carrier)
  parse_mem_info content_bytes = filled (
      parse fl (new_parser host_mem_info (codes ":")) content_bytes
        (with_map host_mem_info (codes "UnknownFields") (zero_struct fl host_mem_info)))

  unfoldable pub parse_vm_stat : Bytes → Result Setters.Error (Struct Carrier)
  parse_vm_stat content_bytes = filled (
      parse fl (new_parser host_vm_stat (codes " ")) content_bytes
        (with_map host_vm_stat (codes "UnknownFields") (zero_struct fl host_vm_stat)))

  -- `getMemInfo` and `getVMStat`
  unfoldable pub get_mem_info : FileSystem → Result HostError (Struct Carrier)
  unfolding parse_mem_info
  get_mem_info files = do
    mem_info_bytes ← map_err mem_info_unreadable (files (codes "/proc/meminfo"))
    map_err mem_info_malformed (parse_mem_info mem_info_bytes)

  unfoldable pub get_vm_stat : FileSystem → Result HostError (Struct Carrier)
  unfolding parse_vm_stat
  get_vm_stat files = do
    vm_stat_bytes ← map_err vm_stat_unreadable (files (codes "/proc/vmstat"))
    map_err vm_stat_malformed (parse_vm_stat vm_stat_bytes)

  -- The statistics that the two files make.
  unfoldable pub host_stats : Struct Carrier → Struct Carrier → MemoryStats
  host_stats mi vms =
      let info = λ (name : Bytes). int_field host_mem_info name mi in
      record {
        total = wrap64 (info (codes "MemTotal") +ℤ info (codes "SwapTotal"));
        free = wrap64 (info (codes "MemFree") +ℤ info (codes "SwapFree"));
        available = info (codes "MemAvailable");
        oom_kills = int_field host_vm_stat (codes "OomKill") vms;
      }

  -- `HostMemStats`
  unfoldable pub host_mem_stats : FileSystem → Result HostError MemoryStats
  unfolding get_mem_info get_vm_stat host_stats
  host_mem_stats files = do mi ← get_mem_info files; vms ← get_vm_stat files; ok (host_stats mi vms)
