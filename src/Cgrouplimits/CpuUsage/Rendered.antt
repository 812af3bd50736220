-- ===== src/Cgrouplimits/CpuUsage/Rendered.antt =====
-- `CGroupV2CPUUsage` on the cpu.stat files that the kernel writes.
use procstats.Base.{◌≡◌, refl, List, arith, Bytes, codes, equal, insert, lookup, All, ok}
use procstats.Base.Int.{ℤ, pos, ◌*ℤ◌, wrap64}
use procstats.Cgrouplimits.CpuStat.{cg2_cpu_stat_contents}
use procstats.Cgrouplimits.CpuUsage.{duration, cgroup_v2_cpu_usage}
use procstats.Cgrouplimits.MemUsage.New.{parse_new-HasAmounts}
use procstats.Go.Files.{FileSystem, read_in}
use procstats.Go.Float.{Float64}
use procstats.Pparser.Dict.Amounts.{amount_of, HasAmounts}
use procstats.Pparser.Dict.Files.{AllSigned}
use procstats.Pparser.Dict.{view}
use procstats.Pparser.Fields.{zero_struct, int_field}
use procstats.Pparser.Index.{new_parser, field_index}
use procstats.Pparser.Types.{Struct}
use procstats.Pparser.Dict.Render.{Item, render, IsItem}

-- The amount of a name's last line, from microseconds to nanoseconds, as an int64 that wraps around.
abbrev pub from_micros : List Item → Bytes → ℤ
from_micros is name = wrap64 (amount_of is name *ℤ pos 1000)

cpu_stat-AllSigned : AllSigned (new_parser cg2_cpu_stat_contents (codes " "))
unfolding new_parser field_index insert equal
cpu_stat-AllSigned = (refl, refl)

-- The fields that the function reads are those of its three names.
cpu_stat_fields :
    (fl : Float64) (is : List Item) (out : Struct fl.Carrier)
    → HasAmounts fl cg2_cpu_stat_contents b' ' is (zero_struct fl cg2_cpu_stat_contents) out
    → (int_field cg2_cpu_stat_contents (codes "Userμs") out ≡ amount_of is (codes "user_usec"))
      × (int_field cg2_cpu_stat_contents (codes "Sysμs") out ≡ amount_of is (codes "system_usec"))
      × (int_field cg2_cpu_stat_contents (codes "Throttledμs") out
          ≡ amount_of is (codes "throttled_usec"))
unfolding zero_struct lookup new_parser field_index equal insert view
cpu_stat_fields fl is out has = (
  has (codes "user_usec") (codes "Userμs") refl refl,
  has (codes "system_usec") (codes "Sysμs") refl refl,
  has (codes "throttled_usec") (codes "Throttledμs") refl refl,
)

-- From a cpu.stat as the kernel writes it, `CGroupV2CPUUsage` gives the user, system and throttled times of
-- the last line of each name, from microseconds to nanoseconds, and 0 for a name without a line.
pub cgroup_v2_cpu_usage-render :
    (fl : Float64) (files : FileSystem) (dir : Bytes) (is : List Item)
    → read_in files dir (codes "cpu.stat") ≡ ok (render b' ' is)
    → All (IsItem b' ') is
    → cgroup_v2_cpu_usage fl files dir
      ≡ ok (record {
        limit = fl.of_int (pos 0);
        usage = record {
          utime = from_micros is (codes "user_usec");
          stime = from_micros is (codes "system_usec");
        };
        throttled_time = from_micros is (codes "throttled_usec");
      })
unfolding cgroup_v2_cpu_usage duration
cgroup_v2_cpu_usage-render fl files dir is e h =
    let (out, p, has) =
      parse_new-HasAmounts fl cg2_cpu_stat_contents b' ' is (omega arith) cpu_stat-AllSigned h in
    let (u, s, t) = cpu_stat_fields fl is out has in rw (e, cgroup_v2_cpu_usage, p, u, s, t) refl
