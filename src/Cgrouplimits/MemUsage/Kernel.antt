-- ===== src/Cgrouplimits/MemUsage/Kernel.antt =====
-- `GetCgroupMemoryStats` of a v2 cgroup from files that the kernel writes to the statistics.
use mathlib.Core.Path.{ap₂, subst}
use procstats.Base.{
  ℕ, ◌^◌, ◌<◌, ◌≡◌, refl, ap, ◌∙◌, arith, List, [], ◌∷◌, Option, none, some, reverse, map, Bytes,
  codes, All, Result, ok, err,
}
use procstats.Base.Int.{ℤ, pos}
use procstats.Cgresolver.CgPath.Walk.{visited}
use procstats.Cgresolver.CgPath.{CgMode, v2, CGroupPath}
use procstats.Cgresolver.Mountinfo.Rows.{Row}
use procstats.Cgresolver.ProcCgroup.Ancestors.{trim_suffix-rooted, reverse-IsName}
use procstats.Cgresolver.ProcCgroup.Composed.{IsProcess, IsOnMount, self_subsystem_path-IsOnMount}
use procstats.Cgresolver.ProcCgroup.Lines.{Entry}
use procstats.Cgresolver.ProcCgroup.Table.{CGroupSubsystem}
use procstats.Cgrouplimits.MemLimit.IntFile.{
  IntFile, no_limit, number, content, IsIntFile, value, read_int_val_file-IntFile,
}
use procstats.Cgrouplimits.MemLimit.{read_int_val_file, max_int64}
use procstats.Cgrouplimits.MemUsage.Least.{
  Read, IsStatsOf, stats_read, get_cgroup_memory_stats-IsStatsOf,
}
use procstats.Cgrouplimits.MemUsage.New.{parse_new-HasAmounts}
use procstats.Cgrouplimits.MemUsage.Rendered.{
  exact_stats, memory_stat-AllSigned, v2_memory_stats-render,
}
use procstats.Cgrouplimits.MemUsage.{
  stat_unreadable, events_unreadable, limit_or_none, v2_memory_stats,
  get_cgroup_memory_stats_single, get_cgroup_memory_stats,
}
use procstats.Cgrouplimits.MemStat.{cg2_memory_stat_contents}
use procstats.Go.Files.{ReadError, FileSystem, read_in}
use procstats.Go.Float.{Float64}
use procstats.Go.Paths.Clean.{rooted}
use procstats.Pparser.Dict.Render.{Item, render, IsItem}

-- What a v2 cgroup's directory has of memory: the lines of memory.stat and of memory.events, the usage and
-- the limit, if there is one. The root of all cgroups has no memory.events, and old kernels no memory.stat
-- there.
pub data MemFiles : Type 0 where
  stat_missing : ReadError → MemFiles
  events_missing : List Item → ReadError → MemFiles
  all_files : List Item → List Item → ℕ → Option ℕ → MemFiles

-- memory.max has a word where there is no limit.
abbrev pub max_file : Option ℕ → IntFile
max_file none = no_limit
max_file (some n) = number (pos n)

abbrev pub limit_bytes : Option ℕ → ℤ
limit_bytes none = max_int64
limit_bytes (some n) = pos n

abbrev pub IsBytes : Option ℕ → Type 0
IsBytes none = Unit
IsBytes (some n) = n < 2 ^ 63

-- The statistics that they give.
abbrev pub stats_of : MemFiles → Read
stats_of (stat_missing e) = err (stat_unreadable e)
stats_of (events_missing stat e) = err (events_unreadable e)
stats_of (all_files stat events usage limit) =
    ok (exact_stats stat events (limit_bytes limit) (pos usage), limit_bytes limit)

value-max_file : (n : Option ℕ) → value (max_file n) ≡ ok (limit_bytes n)
value-max_file none = refl
value-max_file (some n) = refl

max_file-IsIntFile : (n : Option ℕ) → IsBytes n → IsIntFile (max_file n)
max_file-IsIntFile none h = tt
max_file-IsIntFile (some n) h = omega arith

limit_or_none-ok : (z : ℤ) → limit_or_none (ok z) ≡ ok z
unfolding limit_or_none
limit_or_none-ok z = refl

module _ (files : FileSystem) where
  abbrev Has : CGroupPath → Bytes → Result ReadError Bytes → Type 0
  Has p file r = read_in files p.abs_path file ≡ r

  -- The lines are such as the kernel writes, and the numbers fit an int64.
  abbrev pub HasMemFiles : CGroupPath → MemFiles → Type 0
  HasMemFiles p (stat_missing e) = (p.mode ≡ v2) × Has p (codes "memory.stat") (err e)
  HasMemFiles p (events_missing stat e) =
      (p.mode ≡ v2)
      × Has p (codes "memory.stat") (ok (render b' ' stat))
      × All (IsItem b' ') stat
      × Has p (codes "memory.events") (err e)
  HasMemFiles p (all_files stat events usage limit) =
      (p.mode ≡ v2)
      × Has p (codes "memory.stat") (ok (render b' ' stat))
      × All (IsItem b' ') stat
      × Has p (codes "memory.events") (ok (render b' ' events))
      × All (IsItem b' ') events
      × Has p (codes "memory.current") (content (number (pos usage)))
      × (usage < 2 ^ 63)
      × Has p (codes "memory.max") (content (max_file limit))
      × IsBytes limit

  -- Each directory has the files at its place in the list.
  abbrev pub HaveMemFiles : List CGroupPath → List MemFiles → Type 0
  HaveMemFiles [] [] = Unit
  HaveMemFiles [] (x ∷ xs) = ⊥
  HaveMemFiles (p ∷ ps) [] = ⊥
  HaveMemFiles (p ∷ ps) (x ∷ xs) = HasMemFiles p x × HaveMemFiles ps xs

  read_limit :
      (p : CGroupPath) (n : Option ℕ)
      → Has p (codes "memory.max") (content (max_file n))
      → IsBytes n
      → limit_or_none (read_int_val_file files p.abs_path (codes "memory.max")) ≡ ok (limit_bytes n)
  read_limit p n r h =
      ap limit_or_none (
        read_int_val_file-IntFile files p.abs_path _ (max_file n) r (max_file-IsIntFile n h)
        ∙ value-max_file n)
      ∙ limit_or_none-ok (limit_bytes n)

  module _ (fl : Float64) where
    single-v2 :
        (p : CGroupPath)
        → p.mode ≡ v2
        → get_cgroup_memory_stats_single fl files p ≡ v2_memory_stats fl files p
    unfolding get_cgroup_memory_stats_single
    single-v2 p m = rw (m, get_cgroup_memory_stats_single) refl

    v2_memory_stats-MemFiles :
        (p : CGroupPath) (x : MemFiles) → HasMemFiles p x → v2_memory_stats fl files p ≡ stats_of x
    unfolding v2_memory_stats
    v2_memory_stats-MemFiles p (stat_missing e) (m, r) = rw (r, v2_memory_stats) refl
    v2_memory_stats-MemFiles p (events_missing stat e) (m, r, h, r') =
        let (out, done, has) =
          parse_new-HasAmounts fl cg2_memory_stat_contents b' ' stat (omega arith)
            memory_stat-AllSigned h in
        rw (r, v2_memory_stats, done, r') refl
    v2_memory_stats-MemFiles p (all_files stat events usage limit) (m, r, h, r', h', u, hu, l, hl) =
        v2_memory_stats-render fl files p stat events (limit_bytes limit) (pos usage) r h r' h'
          (read_int_val_file-IntFile files p.abs_path _ (number (pos usage)) u (omega arith))
          (read_limit p limit l hl)

    mode-MemFiles : (p : CGroupPath) (x : MemFiles) → HasMemFiles p x → p.mode ≡ v2
    mode-MemFiles p (stat_missing e) h = h.0
    mode-MemFiles p (events_missing stat e) h = h.0
    mode-MemFiles p (all_files stat events usage limit) h = h.0

    stats_read-MemFiles :
        (ps : List CGroupPath) (xs : List MemFiles)
        → HaveMemFiles ps xs
        → stats_read fl files ps ≡ map stats_of xs
    stats_read-MemFiles [] [] h = refl
    stats_read-MemFiles [] (x ∷ xs) h = absurd h
    stats_read-MemFiles (p ∷ ps) [] h = absurd h
    stats_read-MemFiles (p ∷ ps) (x ∷ xs) (h, hs) =
        ap₂ (λ y ys. y ∷ ys) (single-v2 p (mode-MemFiles p x h) ∙ v2_memory_stats-MemFiles p x h)
          (stats_read-MemFiles ps xs hs)

    -- Where the files of /proc are as the kernel writes them, the process's memory cgroup is on a mount of
    -- cgroup v2, and so are memory.stat, memory.events, memory.current and memory.max in the cgroup's
    -- directory and in those above it up to the mount point, or one of the first two cannot be read,
    -- `GetCgroupMemoryStats` gives the statistics in exact numbers, wrapped around once, of a cgroup on the
    -- way whose limit no other is less than, or the first error where none can be read. A cgroup without a
    -- limit has the largest int64.
    pub get_cgroup_memory_stats-IsOnMount :
        (cs : List CGroupSubsystem) (es : List Entry) (rs : List Row) (m : Bytes)
        (ms ps : List Bytes) (mode : CgMode) (xs : List MemFiles)
        → IsProcess files (codes "self") cs es rs
        → IsOnMount (codes "memory") cs es rs m ms ps mode
        → HaveMemFiles (visited (rooted (m ∷ ms)) mode (rooted (m ∷ ms)) (reverse ps)) xs
        → IsStatsOf (map stats_of xs) (get_cgroup_memory_stats fl files)
    get_cgroup_memory_stats-IsOnMount cs es rs m ms ps mode xs process h have =
        let bare = trim_suffix-rooted m ms h.mountpoint_clean in
        subst (λ l. IsStatsOf l (get_cgroup_memory_stats fl files)) (stats_read-MemFiles _ xs have)
          (get_cgroup_memory_stats-IsStatsOf fl files (rooted (m ∷ ms)) bare mode (rooted (m ∷ ms))
            (reverse ps) bare (reverse-IsName ps h.path_clean)
            (self_subsystem_path-IsOnMount files (codes "memory") cs es rs m ms ps mode process h))
