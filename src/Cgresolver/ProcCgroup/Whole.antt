-- ===== src/Cgresolver/ProcCgroup/Whole.antt =====
-- `parseProcPidCgroup` on whole /proc/<pid>/cgroup files.
use mathlib.Core.List.{reverse-append}
use mathlib.Core.Path.{subst}
use procstats.Base.{
  ℕ, ◌≡◌, ◌≢◌, inl, refl, sym, ap, ◌∙◌, List, [], ◌∷◌, ◌++◌, reverse, map, arith, Bytes, codes, All,
  All-append, append_assoc, ok,
}
use procstats.Base.Int.{pos}
use procstats.Cgresolver.Mountinfo.Rows.{join}
use procstats.Cgresolver.ProcCgroup.{
  CgProcHierarchy, proc_cgroup_line, proc_cgroup_lines, parse_proc_pid_cgroup,
}
use procstats.Go.Spaces.Trim.{newline-IsSpace, IsTrimmed, trim_space-append, IsGraphic-IsTrimmed}
use procstats.Go.Spaces.Words.{IsGraphic}
use procstats.Go.Spaces.{trim_space}
use procstats.Go.Strconv.Text.{format_int-Lacks, format_int-IsGraphic, format_int_not_nil}
use procstats.Go.Strconv.{format_int}
use procstats.Go.Strings.Cut.{Lacks, split-append, split-Lacks}
use procstats.Go.Strings.{split}
use procstats.Cgresolver.ProcCgroup.Lines.{
  Entry, IsEntry, entry_line, proc_cgroup_file, entry_hierarchy, join-Lacks, controllers-Lacks,
  proc_cgroup_line-entry,
}

-- A text that begins with seen ASCII.
abbrev Begins : Bytes → Type 0
Begins s = (c : ℕ) × (r : Bytes) × (s ≡ c ∷ r) × IsGraphic c

Begins-append : (s t : Bytes) → Begins s → Begins (s ++ t)
Begins-append s t (c, r, e, h) = (c, r ++ t, ap (λ u. u ++ t) e, h)

Ends-append : (s t : Bytes) → Begins (reverse t) → Begins (reverse (s ++ t))
Ends-append s t b =
    subst Begins (sym (reverse-append s t)) (Begins-append (reverse t) (reverse s) b)

entry-Begins : (e : Entry) → Begins (entry_line e)
entry-Begins e =
    let t =
      IsGraphic-IsTrimmed (format_int (pos e.id)) (format_int_not_nil (pos e.id))
        (format_int-IsGraphic (pos e.id)) in
    Begins-append (format_int (pos e.id)) (b':' ∷ (join b',' e.controllers ++ b':' ∷ e.path))
      (t.first, t.after, t.begins, t.first_graphic)

entry-Ends : (e : Entry) → IsEntry e → Begins (reverse (entry_line e))
entry-Ends e h =
    let csv = join b',' e.controllers in
    let path : Begins (reverse e.path) = (h.last, h.before, h.path_ends, h.last_graphic) in
    Ends-append (format_int (pos e.id)) (b':' ∷ (csv ++ b':' ∷ e.path))
      (Ends-append (b':' ∷ csv) (b':' ∷ e.path) (Ends-append (b':' ∷ []) e.path path))

-- The file without its last newline.
abbrev body : Entry → List Entry → Bytes
body e [] = entry_line e
body e (f ∷ es) = entry_line e ++ b'\n' ∷ body f es

proc_cgroup_file-body :
    (e : Entry) (es : List Entry) → proc_cgroup_file (e ∷ es) ≡ body e es ++ codes "\n"
proc_cgroup_file-body e [] = refl
proc_cgroup_file-body e (f ∷ es) =
    ap (λ t. entry_line e ++ b'\n' ∷ t) (proc_cgroup_file-body f es)
    ∙ sym (append_assoc (entry_line e) (b'\n' ∷ body f es) (codes "\n"))

body-Begins : (e : Entry) (es : List Entry) → Begins (body e es)
body-Begins e [] = entry-Begins e
body-Begins e (f ∷ es) = Begins-append (entry_line e) (b'\n' ∷ body f es) (entry-Begins e)

body-Ends : (e : Entry) (es : List Entry) → All IsEntry (e ∷ es) → Begins (reverse (body e es))
body-Ends e [] (h, _) = entry-Ends e h
body-Ends e (f ∷ es) (h, hs) =
    Ends-append (entry_line e) (b'\n' ∷ body f es)
      (Ends-append (b'\n' ∷ []) (body f es) (body-Ends f es hs))

body-IsTrimmed : (e : Entry) (es : List Entry) → All IsEntry (e ∷ es) → IsTrimmed (body e es)
body-IsTrimmed e es h =
    let (c, r, b, g) = body-Begins e es in
    let (d, q, f, k) = body-Ends e es h in
    record {
      first = c;
      after = r;
      begins = b;
      first_graphic = g;
      last = d;
      before = q;
      ends = f;
      last_graphic = k;
    }

entry_line-Lacks : (e : Entry) → IsEntry e → Lacks b'\n' (entry_line e)
entry_line-Lacks e h =
    let (colons, lines) = controllers-Lacks e.controllers h.names in
    let csv = join b',' e.controllers in
    All-append (λ c. c ≢ b'\n') (format_int (pos e.id)) (b':' ∷ (csv ++ b':' ∷ e.path))
      (format_int-Lacks b'\n' e.id (inl (omega arith)))
      (
        omega arith,
        All-append (λ c. c ≢ b'\n') csv (b':' ∷ e.path)
            (join-Lacks b'\n' e.controllers (omega arith) lines) (omega arith, h.path_line),
      )

split-body :
    (e : Entry) (es : List Entry)
    → All IsEntry (e ∷ es)
    → split b'\n' (body e es) ≡ map entry_line (e ∷ es)
split-body e [] (h, _) = split-Lacks b'\n' (entry_line e) (entry_line-Lacks e h)
split-body e (f ∷ es) (h, hs) =
    split-append b'\n' (entry_line e) (body f es) (entry_line-Lacks e h)
    ∙ ap (λ t. entry_line e ∷ t) (split-body f es hs)

lines-cons :
    (l : Bytes) (ls : List Bytes) (x : CgProcHierarchy) (xs : List CgProcHierarchy)
    → Begins l
    → proc_cgroup_line l ≡ ok x
    → proc_cgroup_lines ls ≡ ok xs
    → proc_cgroup_lines (l ∷ ls) ≡ ok (x ∷ xs)
unfolding proc_cgroup_lines
lines-cons [] ls x xs (c, r, b, g) e es = absurd (cc)
lines-cons (a ∷ l) ls x xs b e es = rw (e, es) refl

lines-entries :
    (es : List Entry)
    → All IsEntry es
    → proc_cgroup_lines (map entry_line es) ≡ ok (map entry_hierarchy es)
unfolding proc_cgroup_lines
lines-entries [] h = refl
lines-entries (e ∷ es) (h, hs) =
    lines-cons (entry_line e) (map entry_line es) (entry_hierarchy e) (map entry_hierarchy es)
      (entry-Begins e) (proc_cgroup_line-entry e h) (lines-entries es hs)

-- A /proc/<pid>/cgroup as the kernel writes it is read back: each line's number, its controllers, none where
-- the list is empty, and its path, colons and spaces in it included.
pub parse_proc_pid_cgroup-file :
    (es : List Entry)
    → All IsEntry es
    → parse_proc_pid_cgroup (proc_cgroup_file es) ≡ ok (map entry_hierarchy es)
unfolding parse_proc_pid_cgroup trim_space split proc_cgroup_lines
parse_proc_pid_cgroup-file [] h = refl
parse_proc_pid_cgroup-file (e ∷ es) h =
    ap (λ s. proc_cgroup_lines (split b'\n' (trim_space s))) (proc_cgroup_file-body e es)
    ∙ ap (λ s. proc_cgroup_lines (split b'\n' s))
        (trim_space-append [] (body e es) (codes "\n") tt (body-IsTrimmed e es h) newline-IsSpace)
    ∙ ap proc_cgroup_lines (split-body e es h)
    ∙ lines-entries (e ∷ es) h
