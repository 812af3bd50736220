-- ===== src/Go/Strconv/Decimal.antt =====
-- What `strconv` prints is what it reads.
use procstats.Base.{
  ℕ, zero, suc, ◌+◌, ◌*◌, ◌^◌, ◌≤◌, ◌<◌, ◌≡◌, refl, ◌∙◌, ap, [], ◌∷◌, some, arith, Bytes, All, true,
  false, ltb, Bool-cases, inl, inr, ◌%◌, ◌/◌, ◌-◌, ◌≢◌,
}
use procstats.Base.Int.{ℤ, pos, negsuc, IsInt64}
use procstats.Go.Strconv.{scan, parse_uint, parse_int, with_sign, digits, format_uint, format_int}

abbrev pub IsDigit : ℕ → Type 0
IsDigit c = (b'0' ≤ c) × (c ≤ b'9')

digits_last :
    (f n : ℕ) (out : Bytes) → ltb n 10 ≡ true → digits (suc f) n out ≡ (b'0' + n % 10) ∷ out
unfolding digits
digits_last f n out h = rw h refl

digits_more :
    (f n : ℕ) (out : Bytes)
    → ltb n 10 ≡ false
    → digits (suc f) n out ≡ digits f (n / 10) ((b'0' + n % 10) ∷ out)
unfolding digits
digits_more f n out h = rw h refl

digits-zero : (n : ℕ) (out : Bytes) → digits zero n out ≡ out
unfolding digits
digits-zero n out = refl

mod_ten_range : (n : ℕ) → IsDigit (b'0' + n % 10)
mod_ten_range n = omega arith

digits-IsDigit : (f n : ℕ) (out : Bytes) → All IsDigit out → All IsDigit (digits f n out)
digits-IsDigit zero n out h = rw (digits-zero n out) h
digits-IsDigit (suc f) n out h = elim (Bool-cases (ltb n 10)) [
  | inl t ↦ rw (digits_last f n out t) (mod_ten_range n, h)
  | inr e ↦ rw (digits_more f n out e) (digits-IsDigit f (n / 10) _ (mod_ten_range n, h))
]

scan_step :
    (m n limit : ℕ) (out : Bytes)
    → m * 10 + n % 10 ≡ n
    → n ≤ limit
    → scan 10 limit m ((b'0' + n % 10) ∷ out) ≡ scan 10 limit n out
unfolding scan
scan_step m n limit out e l =
    let same : m * 10 + (b'0' + n % 10 - b'0') ≡ n = omega arith in rw same (ground arith)

scan-digits :
    (f n limit : ℕ) (out : Bytes)
    → n < 10 ^ f
    → n ≤ limit
    → scan 10 limit 0 (digits f n out) ≡ scan 10 limit n out
scan-digits zero n limit out h l =
    rw (digits-zero n out) (ap (λ m. scan 10 limit m out) (omega arith))
scan-digits (suc f) n limit out h l = elim (Bool-cases (ltb n 10)) [
  | inl t ↦ rw (digits_last f n out t) (scan_step 0 n limit out (ground arith) l)
  | inr e ↦ rw (digits_more f n out e) (
      scan-digits f (n / 10) limit ((b'0' + n % 10) ∷ out) (omega arith) (omega arith)
      ∙ scan_step (n / 10) n limit out (omega arith) l)
]

cons_not_nil : (c : ℕ) (out : Bytes) → (c ∷ out) ≢ []
cons_not_nil c out e = cc

digits_not_nil : (f n c : ℕ) (out : Bytes) → digits f n (c ∷ out) ≢ []
digits_not_nil zero n c out = rw (digits-zero n (c ∷ out)) (cons_not_nil c out)
digits_not_nil (suc f) n c out = elim (Bool-cases (ltb n 10)) [
  | inl t ↦ rw (digits_last f n (c ∷ out) t) (cons_not_nil _ _)
  | inr h ↦ rw (digits_more f n (c ∷ out) h) (digits_not_nil f (n / 10) (b'0' + n % 10) (c ∷ out))
]

digits_some : (f n : ℕ) → digits (suc f) n [] ≢ []
digits_some f n = elim (Bool-cases (ltb n 10)) [
  | inl t ↦ rw (digits_last f n [] t) (cons_not_nil _ _)
  | inr h ↦ rw (digits_more f n [] h) (digits_not_nil f (n / 10) (b'0' + n % 10) [])
]

scan_end : (limit n : ℕ) → scan 10 limit n [] ≡ some n
unfolding scan
scan_end limit n = refl

parse_uint_digits :
    (bits : ℕ) (s : Bytes) → s ≢ [] → parse_uint 10 bits s ≡ scan 10 (2 ^ bits - 1) 0 s
unfolding parse_uint
parse_uint_digits bits [] h = absurd (h refl)
parse_uint_digits bits (c ∷ s) h = refl

format_uint-digits : (n : ℕ) → format_uint n ≡ digits 20 n []
unfolding format_uint
format_uint-digits n = refl

pub format_uint_not_nil : (n : ℕ) → format_uint n ≢ []
format_uint_not_nil n = rw (format_uint-digits n) (digits_some 19 n)

-- A number that fits is read back.
pub parse_uint-format_uint : (n : ℕ) → n < 2 ^ 64 → parse_uint 10 64 (format_uint n) ≡ some n
parse_uint-format_uint n h =
    ap (parse_uint 10 64) (format_uint-digits n)
    ∙ parse_uint_digits 64 (digits 20 n []) (digits_some 19 n)
    ∙ scan-digits 20 n (2 ^ 64 - 1) [] (omega arith) (omega arith)
    ∙ scan_end (2 ^ 64 - 1) n

pub format_uint-IsDigit : (n : ℕ) → All IsDigit (format_uint n)
format_uint-IsDigit n = rw (format_uint-digits n) (digits-IsDigit 20 n [] tt)

parse_int_digit :
    (s : Bytes) → All IsDigit s → parse_int 64 s ≡ with_sign 64 false (parse_uint 10 64 s)
unfolding parse_int
parse_int_digit [] h = unfold parse_uint in refl
parse_int_digit (c ∷ s) (h, _) = ground arith

parse_int_minus : (s : Bytes) → parse_int 64 (b'-' ∷ s) ≡ with_sign 64 true (parse_uint 10 64 s)
unfolding parse_int
parse_int_minus s = refl

-- An int64 is read back, whatever its sign.
pub parse_int-format_int : (z : ℤ) → IsInt64 z → parse_int 64 (format_int z) ≡ some z
unfolding format_int
parse_int-format_int (pos n) h =
    parse_int_digit (format_uint n) (format_uint-IsDigit n)
    ∙ ap (with_sign 64 false) (parse_uint-format_uint n (omega arith))
    ∙ ground arith
parse_int-format_int (negsuc n) h =
    parse_int_minus (format_uint (suc n))
    ∙ ap (with_sign 64 true) (parse_uint-format_uint (suc n) (omega arith))
    ∙ ground arith
