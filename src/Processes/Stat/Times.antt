-- ===== src/Processes/Stat/Times.antt =====
-- A stat line as the kernel writes it, and the times that are read from it.
use mathlib.Core.Path.{ap₂}
use procstats.Base.{
  inl, ℕ, suc, zero, ◌+◌, ◌*◌, ◌/◌, ◌^◌, ◌<◌, ◌≡◌, refl, ◌∙◌, ap, List, [], ◌∷◌, ◌++◌, arith, Bytes,
  codes, length, All, ok, some, get_elem?, length-append, leb, true, All-append, append_assoc,
}
use procstats.Base.Int.Wrap.{wrap64_pos}
use procstats.Base.Int.{ℤ, pos, ◌+ℤ◌, ◌*ℤ◌}
use procstats.Go.Strconv.Decimal.{parse_int-format_int}
use procstats.Go.Strconv.{format_int}
use procstats.Go.Strconv.Text.{format_int-Lacks}
use procstats.Go.Strings.Cut.{Lacks, split_n-append}
use procstats.Go.Strings.{split_n}
use procstats.Processes.Stat.{tick_time, linux_parse_cpu_time, stat_times, number_at}

-- Fields, a space behind each, and what follows.
abbrev pub spaced : List Bytes → Bytes → Bytes
spaced [] rest = rest
spaced (f ∷ fs) rest = f ++ b' ' ∷ spaced fs rest

split_n-spaced :
    (fs : List Bytes) (rest : Bytes)
    → All (Lacks b' ') fs
    → split_n (suc (length fs)) (codes " ") (spaced fs rest) ≡ fs ++ rest ∷ []
unfolding split_n
split_n-spaced [] rest h = refl
split_n-spaced (f ∷ fs) rest (hf, hs) =
    split_n-append (length fs) b' ' f (spaced fs rest) hf
    ∙ ap (λ l. f ∷ l) (split_n-spaced fs rest hs)

-- Ticks whose sum in nanoseconds is an int64.
abbrev pub IsTicks : ℕ → ℕ → Type 0
IsTicks own children = (own + children) * 1000000000 < 2 ^ 63

+ℤ_pos : (a b : ℕ) → pos a +ℤ pos b ≡ pos (a + b)
unfolding ◌+ℤ◌
+ℤ_pos a b = ground arith

*ℤ_pos : (a b : ℕ) → pos a *ℤ pos b ≡ pos (a * b)
unfolding ◌*ℤ◌
*ℤ_pos a b = ground arith

tick_time-IsTicks :
    (tick own children : ℕ)
    → IsTicks own children
    → tick_time tick (pos own) (pos children) ≡ pos ((own + children) * 1000000000 / tick)
unfolding tick_time
tick_time-IsTicks tick own children h =
    rw
      (
        +ℤ_pos own children,
        wrap64_pos (own + children) (omega arith),
        *ℤ_pos (own + children) 1000000000,
        wrap64_pos ((own + children) * 1000000000) h,
      )
      refl

-- The four columns of times.
abbrev pub time_fields : ℕ → ℕ → ℕ → ℕ → List Bytes
time_fields u s cu cs =
    format_int (pos u) ∷ format_int (pos s) ∷ format_int (pos cu) ∷ format_int (pos cs) ∷ []

-- A line of /proc/<pid>/stat: the thirteen fields in front of the times, the times, and the rest.
abbrev pub stat_line : List Bytes → ℕ → ℕ → ℕ → ℕ → Bytes → Bytes
stat_line before u s cu cs rest = spaced (before ++ time_fields u s cu cs) rest

number-Lacks : (n : ℕ) → Lacks b' ' (format_int (pos n))
number-Lacks n = format_int-Lacks b' ' n (inl (omega arith))

get_elem?-append :
    (n i : ℕ) (xs ys : List Bytes) → length xs ≡ n → get_elem? (xs ++ ys) (n + i) ≡ get_elem? ys i
get_elem?-append n i [] ys e = ap (get_elem? ys) (omega arith)
get_elem?-append zero i (x ∷ xs) ys e = absurd (omega arith)
get_elem?-append (suc n) i (x ∷ xs) ys e =
    let next : suc n + i ≡ suc (n + i) = omega arith in
    ap (get_elem? (x ∷ (xs ++ ys))) next ∙ get_elem?-append n i xs ys (omega arith)

number_at-format_int :
    (fs : List Bytes) (i n : ℕ)
    → n < 2 ^ 63
    → get_elem? fs i ≡ some (format_int (pos n))
    → number_at fs i ≡ ok (pos n)
number_at-format_int fs i n h e = rw (e, parse_int-format_int (pos n) (omega arith)) refl

stat_times_of :
    (tick : ℕ) (fs : List Bytes) (u s cu cs : ℤ)
    → leb 17 (length fs) ≡ true
    → number_at fs 13 ≡ ok u
    → number_at fs 14 ≡ ok s
    → number_at fs 15 ≡ ok cu
    → number_at fs 16 ≡ ok cs
    → stat_times tick fs ≡ ok (record { utime = tick_time tick u cu; stime = tick_time tick s cs })
unfolding stat_times
stat_times_of tick fs u s cu cs l a b c d = rw (l, a, b, c, d) refl

stat_line_fields :
    (before : List Bytes) (u s cu cs : ℕ) (rest : Bytes)
    → length before ≡ 13
    → All (Lacks b' ') before
    → split_n 18 (codes " ") (stat_line before u s cu cs rest)
      ≡ before ++ (time_fields u s cu cs ++ rest ∷ [])
stat_line_fields before u s cu cs rest len hb =
    let fs = before ++ time_fields u s cu cs in
    ap (λ n. split_n (suc n) (codes " ") (spaced fs rest))
      (omega (arith, length-append before (time_fields u s cu cs)))
    ∙ split_n-spaced fs rest (
        All-append (Lacks b' ') before (time_fields u s cu cs) hb
          (number-Lacks u, (number-Lacks s, (number-Lacks cu, (number-Lacks cs, tt)))))
    ∙ append_assoc before (time_fields u s cu cs) (rest ∷ [])

fields_enough :
    (before after : List Bytes)
    → length before ≡ 13
    → length after ≡ 5
    → leb 17 (length (before ++ after)) ≡ true
fields_enough before after b a =
    let len : length (before ++ after) ≡ 18 = omega (arith, length-append before after) in
    ap (leb 17) len

-- From a line with thirteen fields without spaces in front of the times, the times are the sums of the
-- process's own ticks and those of its children, in nanoseconds, where these fit an int64.
pub linux_parse_cpu_time-stat_line :
    (tick : ℕ) (before : List Bytes) (u s cu cs : ℕ) (rest : Bytes)
    → length before ≡ 13
    → All (Lacks b' ') before
    → IsTicks u cu
    → IsTicks s cs
    → linux_parse_cpu_time tick (stat_line before u s cu cs rest)
      ≡ ok (record {
        utime = pos ((u + cu) * 1000000000 / tick);
        stime = pos ((s + cs) * 1000000000 / tick);
      })
unfolding linux_parse_cpu_time
linux_parse_cpu_time-stat_line tick before u s cu cs rest len hb hu hs =
    let fs = time_fields u s cu cs ++ rest ∷ [] in
    ap (stat_times tick) (stat_line_fields before u s cu cs rest len hb)
    ∙ stat_times_of tick (before ++ fs) (pos u) (pos s) (pos cu) (pos cs)
        (fields_enough before fs len refl)
        (number_at-format_int (before ++ fs) 13 u (omega arith)
          (get_elem?-append 13 0 before fs len))
        (number_at-format_int (before ++ fs) 14 s (omega arith)
          (get_elem?-append 13 1 before fs len))
        (number_at-format_int (before ++ fs) 15 cu (omega arith)
          (get_elem?-append 13 2 before fs len))
        (number_at-format_int (before ++ fs) 16 cs (omega arith)
          (get_elem?-append 13 3 before fs len))
    ∙ ap₂ (λ a b. ok (record { utime = a; stime = b })) (tick_time-IsTicks tick u cu hu)
        (tick_time-IsTicks tick s cs hs)
