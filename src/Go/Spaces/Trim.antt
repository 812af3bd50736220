-- ===== src/Go/Spaces/Trim.antt =====
-- `TrimSpace` on a text that begins and ends with seen ASCII, with ASCII white space around it.
use mathlib.Core.List.{reverse-append, reverse-reverse}
use procstats.Base.{
  ℕ, ◌≡◌, ◌≢◌, refl, sym, ap, ◌∙◌, true, [], ◌∷◌, ◌++◌, reverse, arith, Bytes, All, All-reverse,
}
use procstats.Go.Spaces.Words.{IsGraphic, leading-IsGraphic, leading_space}
use procstats.Go.Spaces.{is_ascii_space, leading, trailing, trim_by, trim_space}

abbrev pub IsSpace : ℕ → Type 0
IsSpace c = is_ascii_space c ≡ true

pub newline-IsSpace : All IsSpace (b'\n' ∷ [])
unfolding is_ascii_space
newline-IsSpace = (refl, tt)

trailing_graphic : (c : ℕ) (s : Bytes) → IsGraphic c → trailing (c ∷ s) ≡ 0
unfolding trailing is_ascii_space
trailing_graphic c [] h = ground arith
trailing_graphic c (a ∷ []) h = ground arith
trailing_graphic c (a ∷ b ∷ s) h = ground arith

trailing_space : (c : ℕ) (s : Bytes) → IsSpace c → trailing (c ∷ s) ≡ 1
unfolding trailing
trailing_space c s h = rw h refl

-- Trimming one end of a text, with the width of a space there.
module _ (width : Bytes → ℕ) (of_graphic : (c : ℕ) (s : Bytes) → IsGraphic c → width (c ∷ s) ≡ 0)
    (of_space : (c : ℕ) (s : Bytes) → IsSpace c → width (c ∷ s) ≡ 1) where
  trim_by_graphic : (c : ℕ) (s : Bytes) → IsGraphic c → trim_by width 0 (c ∷ s) ≡ c ∷ s
  unfolding trim_by
  trim_by_graphic c s h = rw (of_graphic c s h, trim_by) refl

  trim_by_spaces :
      (ws : Bytes) (c : ℕ) (s : Bytes)
      → All IsSpace ws
      → IsGraphic c
      → trim_by width 0 (ws ++ c ∷ s) ≡ c ∷ s
  unfolding trim_by
  trim_by_spaces [] c s h g = trim_by_graphic c s g
  trim_by_spaces (w ∷ ws) c s (hw, hs) g =
      rw (of_space w (ws ++ c ∷ s) hw, trim_by) (trim_by_spaces ws c s hs g)

-- A text whose first and last bytes are seen.
pub record IsTrimmed (s : Bytes) : Type 0 where
  pub first : ℕ
  pub after : Bytes
  pub begins : s ≡ first ∷ after
  pub first_graphic : IsGraphic first
  pub last : ℕ
  pub before : Bytes
  pub ends : reverse s ≡ last ∷ before
  pub last_graphic : IsGraphic last

pub trim_space-append :
    (ws s vs : Bytes)
    → All IsSpace ws
    → IsTrimmed s
    → All IsSpace vs
    → trim_space (ws ++ (s ++ vs)) ≡ s
unfolding trim_space
trim_space-append ws s vs hw t hv =
    let front : trim_by leading 0 (ws ++ (s ++ vs)) ≡ s ++ vs =
      ap (λ u. trim_by leading 0 (ws ++ (u ++ vs))) t.begins
      ∙ trim_by_spaces leading leading-IsGraphic leading_space ws t.first (t.after ++ vs) hw
          t.first_graphic
      ∙ ap (λ u. u ++ vs) (sym t.begins) in
    let back : trim_by trailing 0 (reverse (s ++ vs)) ≡ reverse s =
      ap (trim_by trailing 0) (reverse-append s vs ∙ ap (λ u. reverse vs ++ u) t.ends)
      ∙ trim_by_spaces trailing trailing_graphic trailing_space (reverse vs) t.last t.before
          (All-reverse IsSpace vs hv) t.last_graphic
      ∙ sym t.ends in
    ap (λ u. reverse (trim_by trailing 0 (reverse u))) front ∙ ap reverse back ∙ reverse-reverse s

head_of : (s : Bytes) → s ≢ [] → All IsGraphic s → (d : ℕ) × (r : Bytes) × (s ≡ d ∷ r) × IsGraphic d
head_of [] n h = absurd (n refl)
head_of (c ∷ s) n (hc, hs) = (c, s, refl, hc)

last-IsGraphic :
    (s : Bytes)
    → s ≢ []
    → All IsGraphic s
    → (d : ℕ) × (r : Bytes) × (reverse s ≡ d ∷ r) × IsGraphic d
last-IsGraphic s n h =
    head_of (reverse s) (λ e. n (sym (reverse-reverse s) ∙ ap reverse e))
      (All-reverse IsGraphic s h)

pub IsGraphic-IsTrimmed : (s : Bytes) → s ≢ [] → All IsGraphic s → IsTrimmed s
IsGraphic-IsTrimmed [] n h = absurd (n refl)
IsGraphic-IsTrimmed (c ∷ s) n (hc, hs) =
    let (d, r, e, hd) = last-IsGraphic (c ∷ s) n (hc, hs) in
    record {
      first = c;
      after = s;
      begins = refl;
      first_graphic = hc;
      last = d;
      before = r;
      ends = e;
      last_graphic = hd;
    }
