-- ===== src/Pparser/Typed/Setters.antt =====
-- The setters of pparser/proc_human_parser.go keep a struct well typed, on errors too.
use procstats.Base.{
  ℕ, zero, suc, ◌≡◌, ◌≢◌, refl, Bool, true, false, List, [], ◌∷◌, Option, none, some, arith,
  if◌then◌else◌, Bytes, equal, get_elem?, set, lookup, insert, Bool-cases, ap, inl, inr, ◌∙◌,
}
use procstats.Go.Float.{Float64}
use procstats.Pparser.Index.{LineKvFileParser}
use procstats.Pparser.Setters.{
  overflow, done, failed, kind_at, field_kind, entries, entries_at, set_unknown, set_known,
  set_field,
}
use procstats.Pparser.Types.{
  Kind, string, unhandled, arm, FieldType, plain, mapping, kind_of, Field, Scalar, Value,
  scalar_value, map_value, Struct,
}
use procstats.Pparser.Typed.{
  UnknownAt, ScalarFits, EntriesFit, FieldFits, WellTyped, left_by, IsPanicFree,
}

mapping-injective : {a b c d : Kind} → mapping a b ≡ mapping c d → b ≡ d
mapping-injective e = cc

module _ (fl : Float64) where
  open fl use {Carrier, overflow_float}

  set-WellTyped :
      (t : List Field) (out : Struct Carrier) (i : ℕ) (f : Field) (v : Value Carrier)
      → WellTyped fl t out
      → get_elem? t i ≡ some f
      → FieldFits fl f.type v
      → WellTyped fl t (set out i v)
  set-WellTyped [] [] i f v w e h = w
  set-WellTyped (g ∷ t) (u ∷ out) zero f v w e h = (let same : g ≡ f = cc in rw same h, w.1)
  set-WellTyped (g ∷ t) (u ∷ out) (suc i) f v w e h = (w.0, set-WellTyped t out i f v w.1 e h)
  set-WellTyped [] (u ∷ out) i f v w e h = elim w [ ]
  set-WellTyped (g ∷ t) [] i f v w e h = elim w [ ]

  scalar-FieldFits :
      (ty : FieldType) (s : Scalar Carrier)
      → ScalarFits fl (arm (kind_of ty)) s
      → FieldFits fl ty (scalar_value s)
  scalar-FieldFits (plain k) s h = h
  scalar-FieldFits (mapping k e) s h = h

  known-WellTyped :
      (t : List Field) (out : Struct Carrier) (i : ℕ) (s : Scalar Carrier)
      → WellTyped fl t out
      → ScalarFits fl (arm (kind_at t i)) s
      → WellTyped fl t (set out i (scalar_value s))
  known-WellTyped t out i s w h = go (get_elem? t i) refl
    where
      go : (o : Option Field) → get_elem? t i ≡ o → WellTyped fl t (set out i (scalar_value s))
      go none e = absurd (rw (e, kind_at) at h)
      go (some f) e =
          set-WellTyped t out i f _ w e (scalar-FieldFits f.type s (rw (e, kind_at) at h))

  insert-EntriesFit :
      (k : Kind) (name : Bytes) (s : Scalar Carrier) (m : List (Bytes × Scalar Carrier))
      → ScalarFits fl (arm k) s
      → EntriesFit fl k m
      → EntriesFit fl k (insert name s m)
  unfolding insert
  insert-EntriesFit k name s [] h w = (h, tt)
  insert-EntriesFit k name s ((j, v) ∷ m) h w = elim (Bool-cases (equal j name)) [
    | inl e ↦ rw e (h, w.1)
    | inr n ↦ rw n (w.0, insert-EntriesFit k name s m h w.1)
  ]

  entries-EntriesFit :
      (ty : FieldType) (v : Value Carrier) (j k : Kind)
      → FieldFits fl ty v
      → ty ≡ mapping j k
      → EntriesFit fl k (entries v)
  entries-EntriesFit (mapping a b) (map_value (some m)) j k h e = rw (← (mapping-injective e)) h
  entries-EntriesFit (plain a) (map_value (some m)) j k h e = elim h [ ]
  entries-EntriesFit _ _ j k h e = tt

  entries_at-EntriesFit :
      (t : List Field) (out : Struct Carrier) (u : ℕ) (f : Field) (j k : Kind)
      → WellTyped fl t out
      → get_elem? t u ≡ some f
      → f.type ≡ mapping j k
      → EntriesFit fl k (entries_at out u)
  entries_at-EntriesFit (g ∷ t) (v ∷ out) zero f j k w e ty =
      let same : g ≡ f = cc in entries-EntriesFit g.type v j k w.0 (ap (λ x. x.type) same ∙ ty)
  entries_at-EntriesFit (g ∷ t) (v ∷ out) (suc u) f j k w e ty =
      entries_at-EntriesFit t out u f j k w.1 e ty
  entries_at-EntriesFit _ [] u f j k w e ty = tt
  entries_at-EntriesFit [] (v ∷ out) u f j k w e ty = elim w [ ]

  set_unknown-WellTyped :
      (t : List Field) (o : Option ℕ) (k : Kind) (bad : Bool) (name : Bytes) (s : Scalar Carrier)
      (out : Struct Carrier)
      → UnknownAt t o k
      → (bad ≡ false → ScalarFits fl (arm k) s)
      → WellTyped fl t out
      → WellTyped fl t (left_by fl (set_unknown o bad name s out))
  unfolding set_unknown
  set_unknown-WellTyped t none k bad name s out u fit w = w
  set_unknown-WellTyped t (some i) k bad name s out (f, e, ty) fit w =
      let m = entries_at out i in
      let old = entries_at-EntriesFit t out i f string k w e ty in go bad refl m old
    where
      go :
          (b : Bool)
          → bad ≡ b
          → (m : List (Bytes × Scalar Carrier)) → EntriesFit fl k m
          → WellTyped fl t (
              left_by fl (
                if b
                then failed overflow (set out i (map_value (some m)))
                else done (set out i (map_value (some (insert name s m))))))
      go true q m old = set-WellTyped t out i f _ w e (rw ty old)
      go false q m old =
          set-WellTyped t out i f _ w e (rw ty (insert-EntriesFit k name s m (fit q) old))

  pub field_kind-known :
      (p : LineKvFileParser) (name : Bytes) (i : ℕ)
      → lookup name p.idx ≡ some i
      → field_kind p name ≡ kind_at p.struct_type i
  unfolding field_kind
  field_kind-known p name i e = rw (e, field_kind)

  pub field_kind-unknown :
      (p : LineKvFileParser) (name : Bytes)
      → lookup name p.idx ≡ none
      → field_kind p name ≡ p.unknown_kind
  unfolding field_kind
  field_kind-unknown p name e = rw (e, field_kind)

  pub set_field-WellTyped :
      (p : LineKvFileParser) (overflows : Kind → Bool) (name : Bytes) (s : Scalar Carrier)
      (out : Struct Carrier)
      → UnknownAt p.struct_type p.unknown_idx p.unknown_kind
      → (overflows (field_kind p name) ≡ false → ScalarFits fl (arm (field_kind p name)) s)
      → WellTyped fl p.struct_type out
      → WellTyped fl p.struct_type (left_by fl (set_field p overflows name s out))
  unfolding set_field
  set_field-WellTyped p overflows name s out u fit w = go (lookup name p.idx) refl
    where
      go :
          (o : Option ℕ)
          → lookup name p.idx ≡ o
          → WellTyped fl p.struct_type (left_by fl (set_field p overflows name s out))
      go (some i) e =
          let fit' = rw (field_kind-known p name i e) at fit in
          rw (e, set_field, left_by)
            (elim (Bool-cases (overflows (kind_at p.struct_type i))) [
              | inl bad ↦ rw (bad, left_by) w
              | inr good ↦ rw (good, left_by) (known-WellTyped p.struct_type out i s w (fit' good))
            ])
      go none e =
          let fit' = rw (field_kind-unknown p name e) at fit in
          rw (e, set_field, left_by)
            (set_unknown-WellTyped p.struct_type p.unknown_idx p.unknown_kind _ name s out u fit' w)

  set_known-IsPanicFree :
      (i : ℕ) (bad : Bool) (s : Scalar Carrier) (out : Struct Carrier)
      → IsPanicFree fl (set_known i bad s out)
  unfolding set_known
  set_known-IsPanicFree i bad s out = ground arith

  set_unknown-IsPanicFree :
      (u : ℕ) (bad : Bool) (name : Bytes) (s : Scalar Carrier) (out : Struct Carrier)
      → IsPanicFree fl (set_unknown (some u) bad name s out)
  unfolding set_unknown
  set_unknown-IsPanicFree u true name s out = ground arith
  set_unknown-IsPanicFree u false name s out = tt

  -- The panic of a setter needs a name with no field, and a kind that no case handles.
  pub set_field-IsPanicFree :
      (p : LineKvFileParser) (overflows : Kind → Bool) (name : Bytes) (s : Scalar Carrier)
      (out : Struct Carrier)
      → UnknownAt p.struct_type p.unknown_idx p.unknown_kind
      → arm (field_kind p name) ≢ unhandled
      → IsPanicFree fl (set_field p overflows name s out)
  unfolding set_field
  set_field-IsPanicFree p overflows name s out u handled = go (lookup name p.idx) refl
    where
      known :
          (o : Option ℕ)
          → p.unknown_idx ≡ o
          → lookup name p.idx ≡ none
          → IsPanicFree fl (set_unknown o (overflows p.unknown_kind) name s out)
      known none q e = absurd (handled (ap arm (field_kind-unknown p name e ∙ (rw q at u))))
      known (some i) q e = set_unknown-IsPanicFree i _ name s out

      go :
          (o : Option ℕ) → lookup name p.idx ≡ o → IsPanicFree fl (set_field p overflows name s out)
      go (some i) e = rw (e, set_field, IsPanicFree) (set_known-IsPanicFree i _ s out)
      go none e = rw (e, set_field, IsPanicFree) (known p.unknown_idx refl e)
