-- ===== src/Pparser/Dict/Setters.antt =====
-- The setters of pparser/proc_human_parser.go write one entry of the dictionary, or none on an error.
use procstats.Base.{
  ℕ, ◌<◌, ◌≡◌, ◌≢◌, ◌⊎◌, refl, sym, ap, ◌∙◌, Bool, true, false, List, [], Option, none, some, arith,
  if◌then◌else◌, Bytes, equal, equal_iff, equal_refl, get_elem?, get_elem?-set_self,
  get_elem?-set_ne, set, length, lookup, insert, lookup-insert, Bool-cases, Option-cases, inl, inr,
  length-set,
}
use procstats.Pparser.Dict.{Dict, scalar_in, unknown_view, view}
use procstats.Pparser.Dict.Index.{IsSound}
use procstats.Pparser.Index.{LineKvFileParser}
use procstats.Pparser.Setters.{
  Outcome, done, failed, entries, entries_at, set_unknown, set_known, set_field,
}
use procstats.Pparser.Types.{Kind, Scalar, Value, scalar_value, map_value, Struct}

module _ {F : Type 0} where
  -- The dictionary with one more entry, which hides an older one.
  abbrev pub write : Dict F → Bytes → Scalar F → Dict F
  write d name v n = if equal name n then some v else d n

  abbrev pub Same : Dict F → Dict F → Type 0
  Same d e = (n : Bytes) → d n ≡ e n

  -- An outcome that has the entry written, or an error that changed nothing.
  abbrev pub Writes : LineKvFileParser → Bytes → Scalar F → Struct F → Outcome F → Type 0
  Writes p name v out (done out') =
      Same (view p out') (write (view p out) name v) × (length out' ≡ length out)
  Writes p name v out (failed e out') = Same (view p out') (view p out) × (length out' ≡ length out)

pub Bytes-cases : (s t : Bytes) → (s ≡ t) ⊎ ((s ≢ t) × (equal s t ≡ false))
Bytes-cases s t = elim (Bool-cases (equal s t)) [
  | inl e ↦ inl ((equal_iff s t).0 e)
  | inr e ↦ inr (λ h. ground (arith, equal_iff s t), e)
]

module _ {F : Type 0} (p : LineKvFileParser) where
  -- What the view is where a name has a field, and where it has none.
  view-some :
      (out : Struct F) (n : Bytes) (i : ℕ)
      → lookup n p.idx ≡ some i
      → view p out n ≡ scalar_in (get_elem? out i)
  unfolding view
  view-some out n i e = rw (e, view) refl

  view-none :
      (out : Struct F) (n : Bytes)
      → lookup n p.idx ≡ none
      → view p out n ≡ unknown_view p.unknown_idx out n
  unfolding view
  view-none out n e = rw (e, view) refl

  entries_at-set_ne :
      (out : Struct F) (i u : ℕ) (v : Value F)
      → i ≢ u
      → entries_at (set out i v) u ≡ entries_at out u
  entries_at-set_ne out i u v n =
      ap (λ o. elim o [ none ↦ [] | some w ↦ entries w ]) (get_elem?-set_ne out v n)

  entries_at-set_self :
      (out : Struct F) (u : ℕ) (m : List (Bytes × Scalar F))
      → u < length out
      → entries_at (set out u (map_value (some m))) u ≡ m
  entries_at-set_self out u m h =
      ap (λ o. elim o [ none ↦ [] | some w ↦ entries w ])
        (get_elem?-set_self out u (map_value (some m)) h)

  module _ (sound : IsSound (length p.struct_type) p.index) where
    open sound use {below, apart, other, other_below}

    unknown_view-set_ne :
        (out : Struct F) (o : Option ℕ) (i : ℕ) (v : Value F) (n name : Bytes)
        → p.unknown_idx ≡ o
        → lookup name p.idx ≡ some i
        → unknown_view o (set out i v) n ≡ unknown_view o out n
    unknown_view-set_ne out none i v n name e h = refl
    unknown_view-set_ne out (some u) i v n name e h =
        ap (lookup n) (entries_at-set_ne out i u v (λ s. other name u e (h ∙ ap some s)))

    -- The view of names other than the one written.
    view-set_known_ne :
        (out : Struct F) (name n : Bytes) (i : ℕ) (v : Value F)
        → lookup name p.idx ≡ some i
        → name ≢ n
        → view p (set out i v) n ≡ view p out n
    view-set_known_ne out name n i v e d = elim (Option-cases (lookup n p.idx)) [
      | inl l ↦
          view-none (set out i v) n l
          ∙ unknown_view-set_ne out p.unknown_idx i v n name refl e
          ∙ sym (view-none out n l)
      | inr (j, l) ↦
          view-some (set out i v) n j l
          ∙ ap scalar_in (get_elem?-set_ne out v (λ s. d (apart name n i e (l ∙ ap some (sym s)))))
          ∙ sym (view-some out n j l)
    ]

    view-set_known :
        (out : Struct F) (name : Bytes) (i : ℕ) (v : Scalar F)
        → lookup name p.idx ≡ some i
        → i < length out
        → Same (view p (set out i (scalar_value v))) (write (view p out) name v)
    view-set_known out name i v e h n = elim (Bytes-cases name n) [
      | inl s ↦
          rw (← s, equal_refl name)
            (view-some (set out i (scalar_value v)) name i e
              ∙ ap scalar_in (get_elem?-set_self out i (scalar_value v) h))
      | inr (d, f) ↦ rw f (view-set_known_ne out name n i (scalar_value v) e d)
    ]

    -- Another map of unknown names.
    view-set_unknown :
        (out : Struct F) (u : ℕ) (m : List (Bytes × Scalar F)) (n : Bytes)
        → p.unknown_idx ≡ some u
        → u < length out
        → view p (set out u (map_value (some m))) n
          ≡ elim (lookup n p.idx) [ some _ ↦ view p out n | none ↦ lookup n m ]
    view-set_unknown out u m n e h = elim (Option-cases (lookup n p.idx)) [
      | inl l ↦
          view-none (set out u (map_value (some m))) n l
          ∙ ap (λ o. unknown_view o (set out u (map_value (some m))) n) e
          ∙ ap (lookup n) (entries_at-set_self out u m h)
          ∙ rw l refl
      | inr (j, l) ↦
          view-some (set out u (map_value (some m))) n j l
          ∙ ap scalar_in
              (get_elem?-set_ne out (map_value (some m)) (λ s. other n u e (l ∙ ap some (sym s))))
          ∙ sym (view-some out n j l)
          ∙ rw l refl
    ]

    view_unknown :
        (out : Struct F) (u : ℕ) (n : Bytes)
        → p.unknown_idx ≡ some u
        → lookup n p.idx ≡ none
        → view p out n ≡ lookup n (entries_at out u)
    view_unknown out u n e l = view-none out n l ∙ ap (λ o. unknown_view o out n) e

    -- Making the map where there is none changes no entry.
    view-set_unknown-Same :
        (out : Struct F) (u : ℕ)
        → p.unknown_idx ≡ some u
        → u < length out
        → Same (view p (set out u (map_value (some (entries_at out u))))) (view p out)
    view-set_unknown-Same out u e h n =
        view-set_unknown out u (entries_at out u) n e h ∙ elim (Option-cases (lookup n p.idx)) [
          | inl l ↦ rw l (sym (view_unknown out u n e l))
          | inr (j, l) ↦ rw l refl
        ]

    view-set_unknown_write :
        (out : Struct F) (u : ℕ) (name : Bytes) (v : Scalar F)
        → p.unknown_idx ≡ some u
        → u < length out
        → lookup name p.idx ≡ none
        → Same
            (view p (set out u (map_value (some (insert name v (entries_at out u))))))
            (write (view p out) name v)
    view-set_unknown_write out u name v e h none_named n =
        view-set_unknown out u (insert name v (entries_at out u)) n e h
        ∙ elim (Option-cases (lookup n p.idx)) [
          | inl l ↦ rw l (
              lookup-insert name v (entries_at out u) n
              ∙ ap (λ o. if equal name n then some v else o) (sym (view_unknown out u n e l)))
          | inr (j, l) ↦ elim (Bytes-cases name n) [
            | inl s ↦ cc (none_named, l, ap (λ t. lookup t p.idx) s)
            | inr (d, f) ↦ rw (l, f) refl
          ]
        ]

    set_unknown-Writes :
        (o : Option ℕ) (overflows : Bool) (name : Bytes) (v : Scalar F) (out : Struct F)
        → p.unknown_idx ≡ o
        → length out ≡ length p.struct_type
        → lookup name p.idx ≡ none
        → Writes p name v out (set_unknown o overflows name v out)
    unfolding set_unknown
    set_unknown-Writes none b name v out e h l = ((λ n. refl), refl)
    set_unknown-Writes (some u) true name v out e h l =
        let below_out : u < length out = rw h (other_below u e) in
        (view-set_unknown-Same out u e below_out, length-set out u _)
    set_unknown-Writes (some u) false name v out e h l =
        let below_out : u < length out = rw h (other_below u e) in
        (view-set_unknown_write out u name v e below_out l, length-set out u _)

    set_known-Writes :
        (i : ℕ) (overflows : Bool) (name : Bytes) (v : Scalar F) (out : Struct F)
        → length out ≡ length p.struct_type
        → lookup name p.idx ≡ some i
        → Writes p name v out (set_known i overflows v out)
    unfolding set_known
    set_known-Writes i true name v out h l = ((λ n. refl), refl)
    set_known-Writes i false name v out h l =
        let below_out : i < length out = rw h (below name i l) in
        (view-set_known out name i v l below_out, length-set out i _)

    -- What a setter does to the dictionary.
    pub set_field-Writes :
        (overflows : Kind → Bool) (name : Bytes) (v : Scalar F) (out : Struct F)
        → length out ≡ length p.struct_type
        → Writes p name v out (set_field p overflows name v out)
    unfolding set_field
    set_field-Writes overflows name v out h = elim (Option-cases (lookup name p.idx)) [
      | inl l ↦ rw (l, set_field, Writes) (set_unknown-Writes p.unknown_idx _ name v out refl h l)
      | inr (i, l) ↦ rw (l, set_field, Writes) (set_known-Writes i _ name v out h l)
    ]
