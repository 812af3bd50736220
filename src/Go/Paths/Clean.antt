-- ===== src/Go/Paths/Clean.antt =====
-- Rooted paths that are clean already: what `Clean`, `Join` and `Rel` make of them.
use mathlib.Core.Path.{ap₂}
use mathlib.Core.List.{reverse-reverse, reverse-append}
use procstats.Base.{
  ◌≡◌, ◌≢◌, refl, sym, ap, ◌∙◌, Bool, true, false, List, [], ◌∷◌, ◌++◌, map, reverse, some, arith,
  Bytes, equal, equal_iff, equal_refl, All, All-append, append-nil, append_assoc, Bool-cases, inl,
  inr,
}
use procstats.Go.Paths.{
  slash, dot, dot_dot, clean_onto, clean_elements, join_elements, show, clean, join, up,
  rel_elements, show_rel, rel_from, rel,
}
use procstats.Go.Strings.Cut.{Lacks, split-append, split-Lacks}
use procstats.Go.Strings.{split}

-- An element of a clean rooted path.
abbrev pub IsElement : Bytes → Type 0
IsElement e = (e ≢ []) × Lacks b'/' e × (e ≢ dot) × (e ≢ dot_dot)

-- A rooted path.
abbrev pub rooted : List Bytes → Bytes
rooted es = show (true, es)

equal-false : (s t : Bytes) → s ≢ t → equal s t ≡ false
equal-false s t n = elim (Bool-cases (equal s t)) [
  | inl e ↦ absurd (n ((equal_iff s t).0 e))
  | inr e ↦ e
]

clean_onto_element :
    (r : Bool) (e : Bytes) (es out : List Bytes)
    → IsElement e
    → clean_onto r out (e ∷ es) ≡ clean_onto r (e ∷ out) es
unfolding clean_onto
clean_onto_element r e es out he =
    rw (equal-false e [] he.0, equal-false e dot he.2, equal-false e dot_dot he.3) refl

clean_onto-append :
    (r : Bool) (es fs out : List Bytes)
    → All IsElement es
    → clean_onto r out (es ++ fs) ≡ clean_onto r (reverse es ++ out) fs
clean_onto-append r [] fs out h = refl
clean_onto-append r (e ∷ es) fs out (he, hs) =
    clean_onto_element r e (es ++ fs) out he
    ∙ clean_onto-append r es fs (e ∷ out) hs
    ∙ ap (λ l. clean_onto r l fs)
        (sym (append_assoc (reverse es) (e ∷ []) out)
          ∙ ap (λ l. l ++ out) (sym (reverse-append (e ∷ []) es)))

clean_onto_end : (r : Bool) (out : List Bytes) → clean_onto r out [] ≡ out
unfolding clean_onto
clean_onto_end r out = refl

clean_onto-up :
    (c : Bytes) (out : List Bytes) → c ≢ dot_dot → clean_onto true (c ∷ out) (dot_dot ∷ []) ≡ out
unfolding clean_onto equal
clean_onto-up c out n = rw (equal-false c dot_dot n)

clean_onto-dot : (r : Bool) (out : List Bytes) → clean_onto r out (dot ∷ []) ≡ out
unfolding clean_onto equal
clean_onto-dot r out = refl

clean_onto-elements :
    (r : Bool) (es : List Bytes) → All IsElement es → clean_onto r [] es ≡ reverse es
clean_onto-elements r es h =
    ap (clean_onto r []) (sym (append-nil es))
    ∙ clean_onto-append r es [] [] h
    ∙ clean_onto_end r _
    ∙ append-nil (reverse es)

All-Lacks : (es : List Bytes) → All IsElement es → All (Lacks b'/') es
All-Lacks [] h = h
All-Lacks (e ∷ es) (he, hs) = (he.1, All-Lacks es hs)

split_elements :
    (e : Bytes) (es : List Bytes)
    → All (Lacks b'/') (e ∷ es)
    → split b'/' (join_elements (e ∷ es)) ≡ e ∷ es
split_elements e [] (he, _) = split-Lacks b'/' e he
split_elements e (f ∷ es) (he, hs) = rw (split-append b'/' e _ he, split_elements f es hs)

clean_onto_skip :
    (r : Bool) (out es : List Bytes) → clean_onto r out ([] ∷ es) ≡ clean_onto r out es
unfolding clean_onto equal
clean_onto_skip r out es = refl

split_rooted : (s : Bytes) → split b'/' (b'/' ∷ s) ≡ [] ∷ split b'/' s
unfolding split
split_rooted s = refl

-- A clean rooted path has the elements that it is made of.
pub clean_elements-rooted :
    (es : List Bytes) → All IsElement es → clean_elements (rooted es) ≡ (true, es)
unfolding clean_elements
clean_elements-rooted [] h = unfold split clean_onto equal in refl
clean_elements-rooted (e ∷ es) h = rw (
  split_rooted,
  split_elements e es (All-Lacks (e ∷ es) h),
  clean_onto_skip,
  clean_onto-elements true (e ∷ es) h,
  reverse-reverse,
)

pub clean-rooted : (es : List Bytes) → All IsElement es → clean (rooted es) ≡ rooted es
unfolding clean
clean-rooted es h = ap show (clean_elements-rooted es h)

-- Elements behind others, with the slash between them.
pub rooted-append :
    (m : Bytes) (ms ps : List Bytes) (p : Bytes)
    → rooted (m ∷ ms) ++ slash (join_elements (p ∷ ps)) ≡ rooted ((m ∷ ms) ++ p ∷ ps)
rooted-append m ms ps p = ap slash (go m ms)
  where
    go :
        (m : Bytes) (ms : List Bytes)
        → join_elements (m ∷ ms) ++ slash (join_elements (p ∷ ps))
          ≡ join_elements ((m ∷ ms) ++ p ∷ ps)
    go m [] = refl
    go m (n ∷ ms) =
        append_assoc m (slash (join_elements (n ∷ ms))) _ ∙ ap (λ t. m ++ slash t) (go n ms)

-- A relative path behind a rooted one.
pub join-rooted :
    (m : Bytes) (ms : List Bytes) (p : Bytes) (ps : List Bytes)
    → All IsElement (m ∷ ms)
    → All IsElement (p ∷ ps)
    → join (rooted (m ∷ ms)) (join_elements (p ∷ ps)) ≡ rooted ((m ∷ ms) ++ p ∷ ps)
unfolding join
join-rooted m ms p ps hm hp =
    rw rooted-append
      (clean-rooted ((m ∷ ms) ++ p ∷ ps) (All-append IsElement (m ∷ ms) (p ∷ ps) hm hp))

-- A path and one element more, whatever it is, is cleaned element by element.
clean-last :
    (m : Bytes) (ms : List Bytes) (x : Bytes)
    → All IsElement (m ∷ ms)
    → Lacks b'/' x
    → clean (rooted (m ∷ ms) ++ slash x)
      ≡ rooted (reverse (clean_onto true (reverse (m ∷ ms)) (x ∷ [])))
unfolding clean clean_elements
clean-last m ms x h hx = rw (
  rooted-append m ms [] x,
  split_rooted,
  split_elements m (ms ++ x ∷ [])
      (All-append (Lacks b'/') (m ∷ ms) (x ∷ []) (All-Lacks (m ∷ ms) h) (hx, _)),
  clean_onto_skip,
  clean_onto-append true (m ∷ ms) (x ∷ []) [] h,
  append-nil,
)

join-last :
    (m : Bytes) (ms : List Bytes) (x : Bytes)
    → join (rooted (m ∷ ms)) x ≡ clean (rooted (m ∷ ms) ++ slash x)
unfolding join
join-last m ms x = refl

pub join-dot :
    (m : Bytes) (ms : List Bytes)
    → All IsElement (m ∷ ms)
    → join (rooted (m ∷ ms)) dot ≡ rooted (m ∷ ms)
join-dot m ms h =
    join-last m ms dot
    ∙ clean-last m ms dot h (ground arith)
    ∙ ap (λ l. rooted (reverse l)) (clean_onto-dot true _)
    ∙ ap rooted (reverse-reverse (m ∷ ms))

-- `..` takes the last element away.
pub join-dot_dot :
    (m : Bytes) (ms ns : List Bytes) (c : Bytes)
    → All IsElement (m ∷ ms)
    → m ∷ ms ≡ ns ++ c ∷ []
    → c ≢ dot_dot
    → join (rooted (m ∷ ms)) dot_dot ≡ rooted ns
join-dot_dot m ms ns c h e n =
    join-last m ms dot_dot
    ∙ clean-last m ms dot_dot h (ground arith)
    ∙ ap (λ l. rooted (reverse (clean_onto true l (dot_dot ∷ []))))
        (ap reverse e ∙ reverse-append ns (c ∷ []))
    ∙ ap (λ l. rooted (reverse l)) (clean_onto-up c (reverse ns) n)
    ∙ ap rooted (reverse-reverse ns)

-- Where two paths part, the way leads up and down again.
pub rel_elements_apart :
    (cs : List Bytes) (b : Bytes) (bs : List Bytes) (t : Bytes) (ts : List Bytes)
    → t ≢ b
    → b ≢ dot_dot
    → rel_elements (cs ++ b ∷ bs) (cs ++ t ∷ ts) ≡ some (up (b ∷ bs) (t ∷ ts))
unfolding rel_elements
rel_elements_apart [] b bs t ts n d = rw (equal-false t b n, equal-false b dot_dot d) refl
rel_elements_apart (c ∷ cs) b bs t ts n d = rw (equal_refl c, rel_elements_apart cs b bs t ts n d)

-- The part of a path below another, and nothing of what lies beside it.
pub rel_elements-append : (bs ts : List Bytes) → rel_elements bs (bs ++ ts) ≡ some ts
unfolding rel_elements
rel_elements-append [] ts = refl
rel_elements-append (b ∷ bs) ts = rw (equal_refl b, rel_elements-append bs ts)

-- From a directory below, the way leads up, once for each name.
pub rel_elements_above :
    (ts : List Bytes) (b : Bytes) (bs : List Bytes)
    → rel_elements (ts ++ b ∷ bs) ts ≡ some (map (λ _. dot_dot) (b ∷ bs))
unfolding rel_elements
rel_elements_above [] b bs = rw append-nil
rel_elements_above (t ∷ ts) b bs = rw (equal_refl t, rel_elements_above ts b bs)

pub rel-rooted :
    (bs ts : List Bytes)
    → All IsElement bs
    → All IsElement ts
    → rel (rooted bs) (rooted ts) ≡ show_rel (rel_elements bs ts)
unfolding rel
rel-rooted bs ts hb ht = ap₂ rel_from (clean_elements-rooted bs hb) (clean_elements-rooted ts ht)
