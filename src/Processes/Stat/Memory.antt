-- ===== src/Processes/Stat/Memory.antt =====
-- `readProcessRSS` on the /proc/<pid>/statm files that the kernel writes.
use procstats.Base.{
  ℕ, suc, ◌*◌, ◌<◌, ◌≤◌, ◌^◌, ◌≡◌, refl, ap, ◌∙◌, true, ◌++◌, ◌∷◌, arith, leb, Bytes, codes, length,
  inl, inr, Option-cases, ok,
}
use procstats.Base.Int.{ℤ, pos, ◌*ℤ◌, wrap64}
use procstats.Go.Files.{FileSystem}
use procstats.Go.Strconv.Decimal.{parse_int-format_int}
use procstats.Go.Strconv.Text.{format_int-Lacks}
use procstats.Go.Strconv.{format_int}
use procstats.Go.Strings.Cut.{split_n-append}
use procstats.Go.Strings.{cut, split_n}
use procstats.Processes.Stat.{proc_file_name, proc_file_contents, read_process_rss}

-- The line: the size and the resident pages in front of the other columns.
abbrev pub statm_line : ℕ → ℕ → Bytes → Bytes
statm_line size resident rest =
    format_int (pos size) ++ b' ' ∷ (format_int (pos resident) ++ b' ' ∷ rest)

split_n_some : (n : ℕ) (s : Bytes) → 1 ≤ length (split_n (suc (suc n)) (codes " ") s)
unfolding split_n
split_n_some n s = elim (Option-cases (cut (codes " ") s)) [
  | inl e ↦ rw (e, split_n) (omega arith)
  | inr ((a, b), e) ↦ rw (e, split_n) (omega arith)
]

statm_fields :
    (size resident : ℕ) (rest : Bytes)
    → split_n 7 (codes " ") (statm_line size resident rest)
      ≡ format_int (pos size) ∷ format_int (pos resident) ∷ split_n 5 (codes " ") rest
statm_fields size resident rest =
    split_n-append 5 b' ' (format_int (pos size)) (format_int (pos resident) ++ b' ' ∷ rest)
      (format_int-Lacks b' ' size (inl (omega arith)))
    ∙ ap (λ t. format_int (pos size) ∷ t)
        (split_n-append 4 b' ' (format_int (pos resident)) rest
          (format_int-Lacks b' ' resident (inl (omega arith))))

enough :
    (size resident : ℕ) (rest : Bytes)
    → leb 3
        (length (format_int (pos size) ∷ format_int (pos resident) ∷ split_n 5 (codes " ") rest))
      ≡ true
enough size resident rest = ground (arith, split_n_some 3 rest)

pages_fit :
    (page resident : ℕ)
    → page * resident < 2 ^ 63
    → wrap64 (pos page *ℤ pos resident) ≡ pos (page * resident)
unfolding wrap64 ◌*ℤ◌
pages_fit page resident h = ground arith

-- Where /proc/<pid>/statm is as the kernel writes it, `readProcessRSS` gives the resident pages times the size
-- of a page, where this fits an int64.
pub read_process_rss-statm :
    (page : ℕ) (files : FileSystem) (pid : ℤ) (size resident : ℕ) (rest : Bytes)
    → files (proc_file_name pid (codes "statm")) ≡ ok (statm_line size resident rest)
    → resident < 2 ^ 63
    → page * resident < 2 ^ 63
    → read_process_rss page files pid ≡ ok (pos (page * resident))
unfolding read_process_rss proc_file_contents
read_process_rss-statm page files pid size resident rest e r h =
    rw
      (
        e,
        read_process_rss,
        proc_file_contents,
        statm_fields size resident rest,
        enough size resident rest,
        parse_int-format_int (pos resident) (r, omega arith),
        pages_fit page resident h,
      )
      refl
