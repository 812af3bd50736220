-- ===== src/Cgrouplimits/CpuUsage/RenderedV1.antt =====
-- The v1 branch of `getCGroupCPUStatsSingle` on the files that the kernel writes.
use procstats.Base.{
  ℕ, Option, ◌*◌, ◌^◌, ◌<◌, ◌≡◌, refl, List, arith, Bytes, codes, equal, insert, lookup, All, ok,
}
use procstats.Base.Int.{pos, ◌*ℤ◌, wrap64}
use procstats.Cgresolver.CgPath.{CGroupPath}
use procstats.Cgresolver.ProcCgroup.Resolve.{self_subsystem_path}
use procstats.Cgrouplimits.CpuLimit.Kernel.{cfs_files, HasCpuFiles, limit_single-CpuFiles}
use procstats.Cgrouplimits.CpuLimit.Max.{limit_of}
use procstats.Cgrouplimits.CpuStat.{cg1_cpu_stat_contents, cg1_cpu_acct_stat_contents}
use procstats.Cgrouplimits.CpuUsage.{
  duration, cgroup_v1_read_cpu_acct_stats, v1_usage, cgroup_v1_cpu_usage, limit_or_none,
  v1_cpu_stats, get_cgroup_cpu_stats_single,
}
use procstats.Cgrouplimits.MemLimit.IntFile.{missing, number, content, read_int_val_file-IntFile}
use procstats.Cgrouplimits.MemLimit.{read_int_val_file}
use procstats.Cgrouplimits.MemUsage.New.{parse_new-HasAmounts}
use procstats.Go.Files.{not_exist, FileSystem, read_in}
use procstats.Go.Float.{Float64}
use procstats.Go.Paths.{join}
use procstats.Pparser.Dict.Amounts.{amount_of, HasAmounts}
use procstats.Pparser.Dict.Files.{AllSigned}
use procstats.Pparser.Dict.Render.{Item, render, IsItem}
use procstats.Pparser.Dict.{view}
use procstats.Pparser.Fields.{zero_struct, int_field}
use procstats.Pparser.Index.{new_parser, field_index}
use procstats.Pparser.Types.{Struct}
use procstats.Processes.CpuTime.{CpuTime}

cpu_stat-AllSigned : AllSigned (new_parser cg1_cpu_stat_contents (codes " "))
unfolding new_parser field_index insert equal
cpu_stat-AllSigned = (refl, refl)

acct_stat-AllSigned : AllSigned (new_parser cg1_cpu_acct_stat_contents (codes " "))
unfolding new_parser field_index insert equal
acct_stat-AllSigned = (refl, refl)

-- What the directory of cpuacct has: two counters of nanoseconds or, of older kernels, cpuacct.stat alone,
-- whose lines give the user and system time in ticks of ten milliseconds.
pub data Acct : Type 0 where
  counters : ℕ → ℕ → Acct
  ticks : List Item → ℕ → ℕ → Acct

abbrev pub time_of : Acct → CpuTime
time_of (counters u s) = record { utime = pos u; stime = pos s }
time_of (ticks is u s) = record { utime = pos (u * 10000000); stime = pos (s * 10000000) }

duration_one : (n : ℕ) → n < 2 ^ 63 → duration (pos n) 1 ≡ pos n
unfolding duration ◌*ℤ◌ wrap64
duration_one n h = ground arith

duration_tick :
    (n : ℕ)
    → n * 10000000 < 2 ^ 63
    → wrap64 (wrap64 (pos n *ℤ pos 10) *ℤ pos 1000000) ≡ pos (n * 10000000)
unfolding ◌*ℤ◌ wrap64
duration_tick n h = ground arith

acct_stat_fields :
    (fl : Float64) (is : List Item) (out : Struct fl.Carrier)
    → HasAmounts fl cg1_cpu_acct_stat_contents b' ' is
        (zero_struct fl cg1_cpu_acct_stat_contents)
        out
    → (int_field cg1_cpu_acct_stat_contents (codes "UserTicks") out ≡ amount_of is (codes "user"))
      × (int_field cg1_cpu_acct_stat_contents (codes "SysTicks") out
          ≡ amount_of is (codes "system"))
unfolding zero_struct lookup new_parser field_index equal insert view
acct_stat_fields fl is out has = (
  has (codes "user") (codes "UserTicks") refl refl,
  has (codes "system") (codes "SysTicks") refl refl,
)

throttled_field :
    (fl : Float64) (is : List Item) (out : Struct fl.Carrier)
    → HasAmounts fl cg1_cpu_stat_contents b' ' is (zero_struct fl cg1_cpu_stat_contents) out
    → int_field cg1_cpu_stat_contents (codes "Throttledns") out
      ≡ amount_of is (codes "throttled_time")
unfolding zero_struct lookup new_parser field_index equal insert view
throttled_field fl is out has = has (codes "throttled_time") (codes "Throttledns") refl refl

module _ (fl : Float64) (files : FileSystem) where
  -- The times fit an int64.
  abbrev pub HasAcct : Bytes → Acct → Type 0
  HasAcct dir (counters u s) =
      (read_in files dir (codes "cpuacct.usage_user") ≡ content (number (pos u)))
      × (u < 2 ^ 63)
      × (read_in files dir (codes "cpuacct.usage_sys") ≡ content (number (pos s)))
      × (s < 2 ^ 63)
  HasAcct dir (ticks is u s) =
      (read_in files dir (codes "cpuacct.usage_user") ≡ content (missing not_exist))
      × (read_in files dir (codes "cpuacct.stat") ≡ ok (render b' ' is))
      × All (IsItem b' ') is
      × (amount_of is (codes "user") ≡ pos u)
      × (u * 10000000 < 2 ^ 63)
      × (amount_of is (codes "system") ≡ pos s)
      × (s * 10000000 < 2 ^ 63)

  read_counter :
      (dir file : Bytes) (n : ℕ)
      → read_in files dir file ≡ content (number (pos n))
      → n < 2 ^ 63
      → read_int_val_file files dir file ≡ ok (pos n)
  read_counter dir file n r h =
      read_int_val_file-IntFile files dir file (number (pos n)) r (omega arith)

  read_cpu_acct_stats-render :
      (dir : Bytes) (is : List Item) (u s : ℕ)
      → HasAcct dir (ticks is u s)
      → cgroup_v1_read_cpu_acct_stats fl files dir ≡ ok (time_of (ticks is u s))
  unfolding cgroup_v1_read_cpu_acct_stats
  read_cpu_acct_stats-render dir is u s (_, r, h, eu, hu, es, hs) =
      let (out, p, has) =
        parse_new-HasAmounts fl cg1_cpu_acct_stat_contents b' ' is (omega arith) acct_stat-AllSigned
          h in
      let (fu, fs) = acct_stat_fields fl is out has in
      rw
        (
          r,
          cgroup_v1_read_cpu_acct_stats,
          p,
          fu,
          fs,
          eu,
          es,
          duration_tick u hu,
          duration_tick s hs,
        )
        refl

  -- `CGroupV1CPUUsage` gives the times of the counters, or else of the ticks.
  cgroup_v1_cpu_usage-render :
      (dir : Bytes) (x : Acct) → HasAcct dir x → cgroup_v1_cpu_usage fl files dir ≡ ok (time_of x)
  unfolding cgroup_v1_cpu_usage v1_usage
  cgroup_v1_cpu_usage-render dir (counters u s) (ru, hu, rs, hs) =
      rw
        (
          read_counter dir (codes "cpuacct.usage_user") u ru hu,
          cgroup_v1_cpu_usage,
          v1_usage,
          read_counter dir (codes "cpuacct.usage_sys") s rs hs,
          duration_one u hu,
          duration_one s hs,
        )
        refl
  cgroup_v1_cpu_usage-render dir (ticks is u s) h =
      rw
        (
          read_int_val_file-IntFile files dir (codes "cpuacct.usage_user") (missing not_exist) (h.0)
              tt,
          cgroup_v1_cpu_usage,
          v1_usage,
          read_cpu_acct_stats-render dir is u s h,
        )
        refl

  -- Where the files of a v1 cgroup are as the kernel writes them, those of the CPU limit and cpu.stat in its
  -- directory and those of cpuacct in the directory of the process's own cpuacct cgroup,
  -- `getCGroupCPUStatsSingle` gives the times of cpuacct, the throttled time in nanoseconds, and the
  -- quotient of quota and period as the limit. The times fit an int64.
  pub get_cgroup_cpu_stats_single-v1 :
      (p own : CGroupPath) (q : Option ℕ) (n : ℕ) (stat : List Item) (t : ℕ) (x : Acct)
      → HasCpuFiles fl files p (cfs_files q n)
      → files (join p.abs_path (codes "cpu.stat")) ≡ ok (render b' ' stat)
      → All (IsItem b' ') stat
      → amount_of stat (codes "throttled_time") ≡ pos t
      → t < 2 ^ 63
      → self_subsystem_path files (codes "cpuacct") ≡ ok own
      → HasAcct own.abs_path x
      → get_cgroup_cpu_stats_single fl files p
        ≡ ok (
          record { limit = fl.of_int (pos 0); usage = time_of x; throttled_time = pos t },
          limit_of fl q n,
        )
  unfolding get_cgroup_cpu_stats_single limit_or_none v1_cpu_stats
  get_cgroup_cpu_stats_single-v1 p own q n stat t x h r i et ht o a =
      let (out, done, has) =
        parse_new-HasAmounts fl cg1_cpu_stat_contents b' ' stat (omega arith) cpu_stat-AllSigned
          i in
      rw
        (
          limit_single-CpuFiles fl files p (cfs_files q n) h,
          get_cgroup_cpu_stats_single,
          (h.0).0,
          r,
          v1_cpu_stats,
          done,
          o,
          cgroup_v1_cpu_usage-render own.abs_path x a,
          throttled_field fl stat out has,
          et,
          duration_one t ht,
        )
        refl
