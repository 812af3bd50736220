-- ===== src/Cgresolver/ProcCgroup/Lines.antt =====
-- `parseProcPidCgroup` on the /proc/<pid>/cgroup files that the kernel writes.
use procstats.Base.{
  ℕ, ◌<◌, ◌^◌, ◌≡◌, ◌≢◌, inr, refl, sym, ap, ◌∙◌, List, [], ◌∷◌, ◌++◌, reverse, arith, Bytes, codes,
  All, All-append, ok,
}
use procstats.Base.Int.{pos}
use procstats.Cgresolver.Mountinfo.Rows.{join}
use procstats.Cgresolver.ProcCgroup.{CgProcHierarchy, drop_empty, proc_cgroup_line}
use procstats.Go.Spaces.Words.{IsGraphic}
use procstats.Go.Strconv.Decimal.{parse_int-format_int}
use procstats.Go.Strconv.{format_int}
use procstats.Go.Strconv.Text.{format_int-Lacks}
use procstats.Go.Strings.Cut.{Lacks, split-append, split-Lacks, split_n-append}
use procstats.Go.Strings.{split, split_n}

-- A line of the file: the hierarchy's number, its controllers and the process's path.
pub record Entry : Type 0 where
  pub id : ℕ
  pub controllers : List Bytes
  pub path : Bytes

abbrev pub entry_line : Entry → Bytes
entry_line e = format_int (pos e.id) ++ b':' ∷ (join b',' e.controllers ++ b':' ∷ e.path)

abbrev pub proc_cgroup_file : List Entry → Bytes
proc_cgroup_file [] = []
proc_cgroup_file (e ∷ es) = entry_line e ++ b'\n' ∷ proc_cgroup_file es

-- What the parser makes of a line.
abbrev pub entry_hierarchy : Entry → CgProcHierarchy
entry_hierarchy e = record {
  hierarchy_id = pos e.id;
  subsystems_csv = join b',' e.controllers;
  subsystems = e.controllers;
  path = e.path;
}

-- The name of a controller is not empty and has no separator.
abbrev pub IsController : Bytes → Type 0
IsController c = (c ≢ []) × Lacks b',' c × Lacks b':' c × Lacks b'\n' c

-- A line that the kernel writes: the path has no newline and ends with seen ASCII.
pub record IsEntry (e : Entry) : Type 0 where
  pub id_fits : e.id < 2 ^ 63
  pub names : All IsController e.controllers
  pub path_line : Lacks b'\n' e.path
  pub last : ℕ
  pub before : Bytes
  pub path_ends : reverse e.path ≡ last ∷ before
  pub last_graphic : IsGraphic last

pub join-Lacks : (k : ℕ) (cs : List Bytes) → k ≢ b',' → All (Lacks k) cs → Lacks k (join b',' cs)
join-Lacks k [] n h = tt
join-Lacks k (c ∷ []) n (h, _) = h
join-Lacks k (c ∷ d ∷ cs) n (h, hs) =
    All-append (λ x. x ≢ k) c _ h ((λ e. n (sym e)), join-Lacks k (d ∷ cs) n hs)

pub controllers-Lacks :
    (cs : List Bytes) → All IsController cs → All (Lacks b':') cs × All (Lacks b'\n') cs
controllers-Lacks [] h = (tt, tt)
controllers-Lacks (c ∷ cs) ((n, hc, hk, hl), hs) =
    let (ks, ls) = controllers-Lacks cs hs in ((hk, ks), (hl, ls))

split-join :
    (c : Bytes) (cs : List Bytes)
    → All IsController (c ∷ cs)
    → split b',' (join b',' (c ∷ cs)) ≡ c ∷ cs
split-join c [] ((n, h, _, _), hs) = split-Lacks b',' c h
split-join c (d ∷ cs) ((n, h, _, _), hs) =
    split-append b',' c (join b',' (d ∷ cs)) h ∙ ap (λ t. c ∷ t) (split-join d cs hs)

drop_empty-names : (cs : List Bytes) → cs ≢ [] → All IsController cs → drop_empty cs ≡ cs
drop_empty-names [] n h = refl
drop_empty-names ([] ∷ []) n ((m, _, _, _), hs) = absurd (m refl)
drop_empty-names ([] ∷ d ∷ cs) n h = refl
drop_empty-names ((x ∷ c) ∷ cs) n h = refl

drop_empty-join :
    (cs : List Bytes) → All IsController cs → drop_empty (split b',' (join b',' cs)) ≡ cs
unfolding split
drop_empty-join [] h = refl
drop_empty-join (c ∷ cs) h =
    ap drop_empty (split-join c cs h) ∙ drop_empty-names (c ∷ cs) (λ e. cc) h

pub proc_cgroup_line-entry :
    (e : Entry) → IsEntry e → proc_cgroup_line (entry_line e) ≡ ok (entry_hierarchy e)
unfolding proc_cgroup_line split_n
proc_cgroup_line-entry e h =
    let csv = join b',' e.controllers in
    let (colons, lines) = controllers-Lacks e.controllers h.names in
    let parts : split_n 3 (codes ":") (entry_line e) ≡ format_int (pos e.id) ∷ csv ∷ e.path ∷ [] =
      split_n-append 1 b':' (format_int (pos e.id)) (csv ++ b':' ∷ e.path)
        (format_int-Lacks b':' e.id (inr (omega arith)))
      ∙ ap (λ t. format_int (pos e.id) ∷ t)
          (split_n-append 0 b':' csv e.path (join-Lacks b':' e.controllers (omega arith) colons)) in
    rw
      (
        parts,
        proc_cgroup_line,
        parse_int-format_int (pos e.id) (h.id_fits, omega arith),
        drop_empty-join e.controllers h.names,
      )
      refl
