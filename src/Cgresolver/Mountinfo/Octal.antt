-- ===== src/Cgresolver/Mountinfo/Octal.antt =====
-- `unOctalEscape` of cgresolver/mountinfo_parse.go against a decoder by recursion.
use procstats.Base.{
  ℕ, zero, suc, ◌+◌, ◌/◌, ◌%◌, ◌<◌, Bool, true, [], ◌∷◌, ◌++◌, Option, none, some, ◌≡◌, ◌≢◌, refl,
  sym, ap, ◌∙◌, append_assoc, append-nil, length-append, arith, ◌==◌, if◌then◌else◌, Bytes, codes,
  length, All, Option-cases, Bool-cases, inl, inr, Result, ok, err, require, ◌>>=◌,
}
use procstats.Cgresolver.Mountinfo.{
  Error, escape_parts, bad_offset, bad_escape, un_octal_loop, un_octal_escape,
}
use procstats.Go.Strconv.{parse_uint}
use procstats.Go.Strings.Cut.{Lacks, cut_sound}

-- A text in front of a decoded rest.
abbrev pub after : Bytes → Result Error Bytes → Result Error Bytes
after b (ok s) = ok (b ++ s)
after b (err e) = err e

abbrev pub before : ℕ → Result Error Bytes → Result Error Bytes
before c = after (c ∷ [])

abbrev pub before_escape : Option ℕ → Result Error Bytes → Result Error Bytes
before_escape none r = err bad_escape
before_escape (some c) r = before c r

-- What the text stands for, byte by byte: a backslash takes three octal digits.
unfoldable pub decode : Bytes → Result Error Bytes
decode [] = ok []
decode (c ∷ x ∷ y ∷ z ∷ s) =
    let plain = before c (decode (x ∷ y ∷ z ∷ s)) in
    let escaped = before_escape (parse_uint 8 8 (x ∷ y ∷ z ∷ [])) (decode s) in
    if c == b'\\' then escaped else plain
decode (c ∷ s) = let plain = before c (decode s) in if c == b'\\' then err bad_offset else plain

decode_test : decode (codes "a\\040b\\134") ≡ ok (codes "a b\\")
unfolding decode parse_uint
decode_test = refl

loop_test : un_octal_escape (codes "a\\040b\\134") ≡ ok (codes "a b\\")
unfolding un_octal_escape parse_uint
loop_test = refl

after-nil : (r : Result Error Bytes) → after [] r ≡ r
after-nil (ok s) = refl
after-nil (err e) = refl

after-append : (a b : Bytes) (r : Result Error Bytes) → after a (after b r) ≡ after (a ++ b) r
after-append a b (ok s) = ap ok (sym (append_assoc a b s))
after-append a b (err e) = refl

decode_plain : (c : ℕ) (s : Bytes) → c ≢ b'\\' → decode (c ∷ s) ≡ before c (decode s)
unfolding decode
decode_plain c (x ∷ y ∷ z ∷ s) h = ground arith
decode_plain c (x ∷ y ∷ []) h = ground arith
decode_plain c (x ∷ []) h = ground arith
decode_plain c [] h = ground arith

decode_plain_all : (b s : Bytes) → Lacks b'\\' b → decode (b ++ s) ≡ after b (decode s)
decode_plain_all [] s h = sym (after-nil (decode s))
decode_plain_all (c ∷ b) s (hc, hb) =
    decode_plain c (b ++ s) hc
    ∙ ap (before c) (decode_plain_all b s hb)
    ∙ after-append (c ∷ []) b (decode s)

decode-Lacks : (s : Bytes) → Lacks b'\\' s → decode s ≡ ok s
unfolding decode
decode-Lacks s h = rw append-nil at (decode_plain_all s [] h)

-- One round, at a text that begins with a backslash.
module _ (fuel : ℕ) (b a : Bytes) where
  abbrev round : Bytes → Result Error Bytes
  round after = do
    (esc, rest) ← require (escape_parts after) bad_offset
    ascii_val ← require (parse_uint 8 8 esc) bad_escape
    un_octal_loop fuel (b ++ (a ++ ascii_val ∷ [])) rest

  regroup :
      (v : ℕ) (r : Result Error Bytes) → after (b ++ (a ++ v ∷ [])) r ≡ after (b ++ a) (before v r)
  regroup v r = rw (after-append, append_assoc)

  round-decode :
      ((b' str : Bytes) → length str < fuel → un_octal_loop fuel b' str ≡ after b' (decode str))
      → (rest : Bytes) → length rest < fuel
      → round rest ≡ after (b ++ a) (decode (b'\\' ∷ rest))
  unfolding decode
  round-decode ih (x ∷ y ∷ z ∷ s) h = elim (Option-cases (parse_uint 8 8 (x ∷ y ∷ z ∷ []))) [
    | inl e ↦ rw (e, round, before_escape)
    | inr (v, e) ↦ rw (e, round, before_escape) (ih _ s (omega arith) ∙ regroup v (decode s))
  ]
  round-decode ih (x ∷ y ∷ []) h = refl
  round-decode ih (x ∷ []) h = refl
  round-decode ih [] h = refl

loop-decode :
    (fuel : ℕ) (b str : Bytes) → length str < fuel → un_octal_loop fuel b str ≡ after b (decode str)
unfolding un_octal_loop
loop-decode zero b str h = elim h [ ]
loop-decode (suc fuel) b str h = elim (cut_sound b'\\' str) [
  | inl (e, l) ↦ rw (e, un_octal_loop) (ap (after b) (sym (decode-Lacks str l)))
  | inr (a, rest, e, q, l) ↦
      rw (e, un_octal_loop)
        (round-decode fuel b a (loop-decode fuel) rest
            (omega (arith, length-append a (b'\\' ∷ rest), ap length q))
          ∙ sym (after-append b a _)
          ∙ ap (after b) (sym (decode_plain_all a _ l) ∙ rw q))
]

-- The loop of `unOctalEscape` ends, and computes the text that its argument stands for: every
-- `\ooo` is the byte with that octal number, every other byte is itself, a backslash with fewer
-- than three bytes behind it is an error, and so are three bytes that are no octal number of a
-- byte.
pub un_octal_escape-decode : (str : Bytes) → un_octal_escape str ≡ decode str
unfolding un_octal_escape
un_octal_escape-decode str =
    loop-decode (suc (length str)) [] str (omega arith) ∙ after-nil (decode str)

-- The kernel's escape of a byte.
abbrev octal : ℕ → Bytes
octal c = b'\\' ∷ (b'0' + c / 64) ∷ (b'0' + c / 8 % 8) ∷ (b'0' + c % 8) ∷ []

-- A text with the bytes that `special` tells escaped, as the kernel writes paths to mountinfo.
unfoldable pub octal_escape : (ℕ → Bool) → Bytes → Bytes
octal_escape special [] = []
octal_escape special (c ∷ s) =
    let rest = octal_escape special s in if special c then octal c ++ rest else c ∷ rest

parse_octal :
    (c : ℕ)
    → c < 256
    → parse_uint 8 8 ((b'0' + c / 64) ∷ (b'0' + c / 8 % 8) ∷ (b'0' + c % 8) ∷ []) ≡ some c
unfolding parse_uint
parse_octal c h = ground arith

decode-octal : (c : ℕ) (s : Bytes) → c < 256 → decode (octal c ++ s) ≡ before c (decode s)
unfolding decode
decode-octal c s h = rw (parse_octal c h)

decode-octal_escape :
    (special : ℕ → Bool) (s : Bytes)
    → special b'\\' ≡ true
    → All (λ c. c < 256) s
    → decode (octal_escape special s) ≡ ok s
unfolding octal_escape
decode-octal_escape special [] h b = unfold decode in refl
decode-octal_escape special (c ∷ s) h (hc, hs) = elim (Bool-cases (special c)) [
  | inl e ↦ rw e (decode-octal c _ hc ∙ ap (before c) (decode-octal_escape special s h hs))
  | inr e ↦
      let plain : c ≢ b'\\' = λ q. cc in
      rw e (decode_plain c _ plain ∙ ap (before c) (decode-octal_escape special s h hs))
]

-- Every text that is escaped in the kernel's way, whatever bytes it escapes besides the backslash,
-- is read back.
pub un_octal_escape-octal_escape :
    (special : ℕ → Bool) (s : Bytes)
    → special b'\\' ≡ true
    → All (λ c. c < 256) s
    → un_octal_escape (octal_escape special s) ≡ ok s
un_octal_escape-octal_escape special s h b =
    un_octal_escape-decode _ ∙ decode-octal_escape special s h b
