-- ===== src/Go/Spaces/Words.antt =====
-- `Fields` on words of ASCII with white space behind each.
use procstats.Base.{
  ℕ, ◌≤◌, ◌≡◌, ◌≢◌, refl, sym, ap, ◌∙◌, true, [], ◌∷◌, ◌++◌, arith, Bytes, All, append_assoc,
  append-nil,
}
use procstats.Go.Spaces.{is_ascii_space, leading, fields_from, flush, fields}

-- A byte of ASCII that is seen.
abbrev pub IsGraphic : ℕ → Type 0
IsGraphic c = (33 ≤ c) × (c ≤ 126)

pub leading-IsGraphic : (c : ℕ) (s : Bytes) → IsGraphic c → leading (c ∷ s) ≡ 0
unfolding leading is_ascii_space
leading-IsGraphic c [] h = ground arith
leading-IsGraphic c (a ∷ []) h = ground arith
leading-IsGraphic c (a ∷ b ∷ s) h = ground arith

fields_from_step :
    (word : Bytes) (c : ℕ) (s : Bytes)
    → leading (c ∷ s) ≡ 0
    → fields_from 0 word (c ∷ s) ≡ fields_from 0 (word ++ c ∷ []) s
unfolding fields_from
fields_from_step word c s h = rw (h, fields_from) refl

fields_from_word :
    (w word s : Bytes) → All IsGraphic w → fields_from 0 word (w ++ s) ≡ fields_from 0 (word ++ w) s
fields_from_word [] word s h = ap (λ t. fields_from 0 t s) (sym (append-nil word))
fields_from_word (c ∷ w) word s (hc, hw) =
    fields_from_step word c (w ++ s) (leading-IsGraphic c (w ++ s) hc)
    ∙ fields_from_word w (word ++ c ∷ []) s hw
    ∙ ap (λ t. fields_from 0 t s) (append_assoc word (c ∷ []) w)

pub leading_space : (c : ℕ) (s : Bytes) → is_ascii_space c ≡ true → leading (c ∷ s) ≡ 1
unfolding leading
leading_space c s h = rw h refl

fields_from_space :
    (word : Bytes) (c : ℕ) (s : Bytes)
    → is_ascii_space c ≡ true
    → fields_from 0 word (c ∷ s) ≡ flush word ++ fields_from 0 [] s
unfolding fields_from
fields_from_space word c s h = rw (leading_space c s h, fields_from) refl

flush_word : (w : Bytes) → w ≢ [] → flush w ≡ w ∷ []
flush_word [] h = absurd (h refl)
flush_word (c ∷ w) h = refl

-- A word and a space in front of a text are its first field.
pub fields-append :
    (w : Bytes) (c : ℕ) (s : Bytes)
    → w ≢ []
    → All IsGraphic w
    → is_ascii_space c ≡ true
    → fields (w ++ c ∷ s) ≡ w ∷ fields s
unfolding fields
fields-append w c s n h e =
    fields_from_word w [] (c ∷ s) h
    ∙ fields_from_space w c s e
    ∙ ap (λ l. l ++ fields s) (flush_word w n)

pub fields_nil : fields [] ≡ []
unfolding fields
fields_nil = refl

-- A word alone is the only field.
pub fields_word : (w : Bytes) → w ≢ [] → All IsGraphic w → fields w ≡ w ∷ []
unfolding fields fields_from
fields_word w n h =
    ap (λ t. fields_from 0 [] t) (sym (append-nil w)) ∙ fields_from_word w [] [] h ∙ flush_word w n
