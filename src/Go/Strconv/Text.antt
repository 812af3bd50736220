-- ===== src/Go/Strconv/Text.antt =====
-- What `strconv` prints is seen ASCII, and ends with a digit.
use mathlib.Core.List.{reverse-append, reverse-reverse}
use procstats.Base.{
  equal, false, codes, ℕ, suc, ◌<◌, ◌⊎◌, ◌≡◌, ◌≢◌, refl, sym, ap, ◌∙◌, [], ◌∷◌, ◌++◌, reverse,
  arith, Bytes, All, All-reverse,
}
use procstats.Base.Int.{ℤ, pos, negsuc}
use procstats.Go.Spaces.Words.{IsGraphic}
use procstats.Go.Strconv.Decimal.{IsDigit, format_uint-IsDigit, format_uint_not_nil}
use procstats.Go.Strings.Cut.{Lacks}
use procstats.Go.Strconv.{format_int, format_uint}

digits-IsGraphic : (s : Bytes) → All IsDigit s → All IsGraphic s
digits-IsGraphic [] h = h
digits-IsGraphic (c ∷ s) (h, hs) = (omega arith, digits-IsGraphic s hs)

pub format_int-IsGraphic : (z : ℤ) → All IsGraphic (format_int z)
unfolding format_int
format_int-IsGraphic (pos n) = digits-IsGraphic (format_uint n) (format_uint-IsDigit n)
format_int-IsGraphic (negsuc n) =
    (omega arith, digits-IsGraphic (format_uint (suc n)) (format_uint-IsDigit (suc n)))

pub format_int_not_nil : (z : ℤ) → format_int z ≢ []
unfolding format_int
format_int_not_nil (pos n) = format_uint_not_nil n
format_int_not_nil (negsuc n) = λ e. cc

-- No byte that is not seen is among seen ones, and no other byte among digits.
pub IsGraphic-Lacks : (k : ℕ) (s : Bytes) → k < 33 → All IsGraphic s → Lacks k s
IsGraphic-Lacks k [] n h = tt
IsGraphic-Lacks k (c ∷ s) n (h, hs) = ((λ e. omega arith), IsGraphic-Lacks k s n hs)

IsDigit-Lacks : (k : ℕ) (s : Bytes) → (k < 48) ⊎ (57 < k) → All IsDigit s → Lacks k s
IsDigit-Lacks k [] n h = tt
IsDigit-Lacks k (c ∷ s) n (h, hs) = ((λ e. ground arith), IsDigit-Lacks k s n hs)

pub format_int-Lacks : (k n : ℕ) → (k < 48) ⊎ (57 < k) → Lacks k (format_int (pos n))
unfolding format_int
format_int-Lacks k n h = IsDigit-Lacks k (format_uint n) h (format_uint-IsDigit n)

-- A text that ends with a digit, read backwards.
abbrev pub EndsInDigit : Bytes → Type 0
EndsInDigit s = (c : ℕ) × (r : Bytes) × (s ≡ c ∷ r) × IsDigit c

head-EndsInDigit : (s : Bytes) → s ≢ [] → All IsDigit s → EndsInDigit s
head-EndsInDigit [] n h = absurd (n refl)
head-EndsInDigit (c ∷ s) n (hc, hs) = (c, s, refl, hc)

reverse-EndsInDigit : (n : ℕ) → EndsInDigit (reverse (format_uint n))
reverse-EndsInDigit n =
    head-EndsInDigit (reverse (format_uint n))
      (λ e. format_uint_not_nil n (sym (reverse-reverse (format_uint n)) ∙ ap reverse e))
      (All-reverse IsDigit (format_uint n) (format_uint-IsDigit n))

pub format_int-EndsInDigit : (z : ℤ) → EndsInDigit (reverse (format_int z))
unfolding format_int
format_int-EndsInDigit (pos n) = reverse-EndsInDigit n
format_int-EndsInDigit (negsuc n) =
    let (c, r, e, h) = reverse-EndsInDigit (suc n) in
    (
      c,
      r ++ b'-' ∷ [],
      reverse-append (b'-' ∷ []) (format_uint (suc n)) ∙ ap (λ s. s ++ b'-' ∷ []) e,
      h,
    )

minus_not_max : (s : Bytes) → equal (b'-' ∷ s) (codes "max") ≡ false
unfolding equal
minus_not_max s = refl

digits_not_max : (s : Bytes) → All IsDigit s → equal s (codes "max") ≡ false
unfolding equal
digits_not_max [] h = refl
digits_not_max (c ∷ s) (h, _) = ground arith

-- A number is not the word for no limit.
pub format_int_not_max : (z : ℤ) → equal (format_int z) (codes "max") ≡ false
unfolding format_int
format_int_not_max (pos n) = digits_not_max (format_uint n) (format_uint-IsDigit n)
format_int_not_max (negsuc n) = minus_not_max (format_uint (suc n))
