-- ===== src/Cgrouplimits/CpuLimit/Max.antt =====
-- A cpu.max file as the kernel writes it, and the limit that is read from it.
use procstats.Base.{
  ℕ, ◌^◌, ◌<◌, ◌≡◌, ◌≢◌, refl, ap, ◌∙◌, true, [], ◌∷◌, ◌++◌, Option, none, some, arith, Bytes,
  codes, equal, All, ok, if◌then◌else◌, ◌==◌, ◌||◌,
}
use procstats.Base.Int.{pos}
use procstats.Cgresolver.CgPath.{v2, CGroupPath}
use procstats.Cgrouplimits.CpuLimit.{
  quotient, two_parts, max_numbers, max_limit, v2_limit, get_cgroup_cpu_limit_single,
}
use procstats.Go.Files.{FileSystem}
use procstats.Go.Float.{Float64}
use procstats.Go.Paths.{join}
use procstats.Go.Spaces.Words.{IsGraphic, fields-append, fields_nil}
use procstats.Go.Spaces.{fields, is_ascii_space}
use procstats.Go.Strconv.Decimal.{parse_int-format_int}
use procstats.Go.Strconv.Text.{format_int-IsGraphic, format_int_not_nil, format_int_not_max}
use procstats.Go.Strconv.{format_int}

-- The quota, `max` where there is none.
abbrev pub show_quota : Option ℕ → Bytes
show_quota none = codes "max"
show_quota (some q) = format_int (pos q)

abbrev pub cpu_max : Option ℕ → ℕ → Bytes
cpu_max q p = show_quota q ++ b' ' ∷ (format_int (pos p) ++ b'\n' ∷ [])

show_quota-IsGraphic : (q : Option ℕ) → All IsGraphic (show_quota q)
show_quota-IsGraphic none = ground arith
show_quota-IsGraphic (some q) = format_int-IsGraphic (pos q)

show_quota_not_nil : (q : Option ℕ) → show_quota q ≢ []
show_quota_not_nil none = ground arith
show_quota_not_nil (some q) = format_int_not_nil (pos q)

spaces : (is_ascii_space b' ' ≡ true) × (is_ascii_space b'\n' ≡ true)
unfolding is_ascii_space
spaces = (refl, refl)

fields-cpu_max :
    (q : Option ℕ) (p : ℕ) → fields (cpu_max q p) ≡ show_quota q ∷ format_int (pos p) ∷ []
fields-cpu_max q p =
    fields-append (show_quota q) b' ' _ (show_quota_not_nil q) (show_quota-IsGraphic q) spaces.0
    ∙ ap (λ l. show_quota q ∷ l)
        (fields-append (format_int (pos p)) b'\n' [] (format_int_not_nil (pos p))
            (format_int-IsGraphic (pos p)) spaces.1
          ∙ ap (λ l. format_int (pos p) ∷ l) fields_nil)

max_is_max : equal (codes "max") (codes "max") ≡ true
unfolding equal
max_is_max = refl

module _ (fl : Float64) where
  open fl use {Carrier, of_int, div}

  -- The limit in CPUs, 0 where there is none.
  abbrev pub limit_of : Option ℕ → ℕ → Carrier
  limit_of none p = of_int (pos 0)
  limit_of (some q) p =
      if q == 0 || p == 0 then of_int (pos 0) else div (of_int (pos q)) (of_int (pos p))

  quotient_pos : (q p : ℕ) → quotient fl (pos q) (pos p) ≡ limit_of (some q) p
  quotient_pos q p = ground arith

  abbrev pub IsQuota : Option ℕ → Type 0
  IsQuota none = Unit
  IsQuota (some q) = q < 2 ^ 63

  max_limit-show_quota :
      (q : Option ℕ) (p : ℕ)
      → IsQuota q
      → p < 2 ^ 63
      → max_limit fl (some (show_quota q, format_int (pos p))) ≡ ok (limit_of q p)
  unfolding max_limit max_numbers
  max_limit-show_quota none p hq hp = rw max_is_max refl
  max_limit-show_quota (some q) p hq hp =
      rw
        (
          format_int_not_max (pos q),
          parse_int-format_int (pos q) (omega arith),
          parse_int-format_int (pos p) (omega arith),
          quotient_pos q p,
        )
        refl

  limit_single-v2_limit :
      (files : FileSystem) (path : CGroupPath)
      → path.mode ≡ v2
      → get_cgroup_cpu_limit_single fl files path ≡ v2_limit fl files path
  unfolding get_cgroup_cpu_limit_single
  limit_single-v2_limit files path m = rw (m, get_cgroup_cpu_limit_single) refl

  v2_limit-cpu_max :
      (files : FileSystem) (path : CGroupPath) (q : Option ℕ) (p : ℕ)
      → files (join path.abs_path (codes "cpu.max")) ≡ ok (cpu_max q p)
      → IsQuota q
      → p < 2 ^ 63
      → v2_limit fl files path ≡ ok (limit_of q p)
  unfolding v2_limit
  v2_limit-cpu_max files path q p r hq hp =
      rw (r, v2_limit)
        (ap (λ l. max_limit fl (two_parts l)) (fields-cpu_max q p) ∙ max_limit-show_quota q p hq hp)

  -- Where the cpu.max of a cgroup v2 is as the kernel writes it, its limit is the quota divided by the
  -- period, and 0 where the quota is `max` or a number is 0. The numbers fit an int64.
  pub get_cgroup_cpu_limit_single-cpu_max :
      (files : FileSystem) (path : CGroupPath) (q : Option ℕ) (p : ℕ)
      → path.mode ≡ v2
      → files (join path.abs_path (codes "cpu.max")) ≡ ok (cpu_max q p)
      → IsQuota q
      → p < 2 ^ 63
      → get_cgroup_cpu_limit_single fl files path ≡ ok (limit_of q p)
  get_cgroup_cpu_limit_single-cpu_max files path q p m r hq hp =
      limit_single-v2_limit files path m ∙ v2_limit-cpu_max files path q p r hq hp
