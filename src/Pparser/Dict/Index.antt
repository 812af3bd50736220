-- ===== src/Pparser/Dict/Index.antt =====
-- The index of `fieldIndex`: names have fields of their own, and the map of unknown names another.
use procstats.Base.{
  ℕ, suc, ◌<◌, ◌≡◌, ◌≢◌, refl, List, [], ◌∷◌, Option, none, some, arith, Bytes, codes, equal,
  equal_iff, lookup, insert, lookup-insert, Bool-cases, inl, inr, ◌+◌, length,
}
use procstats.Pparser.Index.{
  FieldIndex, index_unknown, index_field, index_fields, field_index, new_parser,
}
use procstats.Pparser.Types.{FieldType, mapping, string, Field}

-- A sound index over the first `n` fields.
pub record IsSound (n : ℕ) (x : FieldIndex) : Type 0 where
  pub below : (name : Bytes) (i : ℕ) → lookup name x.idx ≡ some i → i < n
  pub apart : (a b : Bytes) (i : ℕ) → lookup a x.idx ≡ some i → lookup b x.idx ≡ some i → a ≡ b
  pub other : (name : Bytes) (u : ℕ) → x.unknown_idx ≡ some u → lookup name x.idx ≢ some u
  pub other_below : (u : ℕ) → x.unknown_idx ≡ some u → u < n

later-IsSound : (n : ℕ) (x : FieldIndex) → IsSound n x → IsSound (suc n) x
later-IsSound n x h = record {
  below = λ name i e. omega (arith, h.below name i e);
  apart = h.apart;
  other = h.other;
  other_below = λ u e. omega (arith, h.other_below u e);
}

insert-IsSound :
    (n : ℕ) (x : FieldIndex) (key : Bytes)
    → IsSound n x
    → IsSound (suc n) (record x { idx = insert key n x.idx })
insert-IsSound n x key h = record {
  below = λ name i e. ground (arith, lookup-insert key n x.idx name, h.below name i);
  apart = λ a b i e f. ground (
    arith,
    lookup-insert key n x.idx a,
    lookup-insert key n x.idx b,
    equal_iff key a,
    equal_iff key b,
    h.below a i,
    h.below b i,
    h.apart a b i,
  );
  other = λ name u e f.
      ground (arith, lookup-insert key n x.idx name, h.other name u e, h.other_below u e);
  other_below = λ u e. omega (arith, h.other_below u e);
}

unknown-IsSound :
    (n : ℕ) (ty : FieldType) (x : FieldIndex) → IsSound n x → IsSound (suc n) (index_unknown n ty x)
unfolding index_unknown
unknown-IsSound n (mapping string elem) x h = record {
  below = λ name i e. omega (arith, h.below name i e);
  apart = h.apart;
  other = λ name u e f. ground (arith, h.below name u f);
  other_below = λ u e. ground arith;
}
unknown-IsSound n _ x h = later-IsSound n x h

index_field-IsSound :
    (n : ℕ) (f : Field) (x : FieldIndex) → IsSound n x → IsSound (suc n) (index_field n f x)
unfolding index_field
index_field-IsSound n f x h = go f.tag refl
  where
    go : (o : Option Bytes) → f.tag ≡ o → IsSound (suc n) (index_field n f x)
    go none e = rw (index_field, e) (insert-IsSound n x f.name h)
    go (some tag) e = elim (Bool-cases (equal tag (codes "skip,unknown"))) [
      | inl u ↦ rw (index_field, e, u) (unknown-IsSound n f.type x h)
      | inr m ↦ elim (Bool-cases (equal tag (codes "skip"))) [
        | inl u ↦ rw (index_field, e, m, u) (later-IsSound n x h)
        | inr o ↦ rw (index_field, e, m, o) (insert-IsSound n x tag h)
      ]
    ]

index_fields-IsSound :
    (n : ℕ) (fs : List Field) (x : FieldIndex)
    → IsSound n x
    → IsSound (n + length fs) (index_fields n fs x)
unfolding index_fields
index_fields-IsSound n [] x h = let e : n + 0 ≡ n = omega arith in rw e h
index_fields-IsSound n (f ∷ fs) x h =
    let e : n + suc (length fs) ≡ suc n + length fs = omega arith in
    rw e (index_fields-IsSound (suc n) fs (index_field n f x) (index_field-IsSound n f x h))

start-IsSound : (x : FieldIndex) → x.idx ≡ [] → x.unknown_idx ≡ none → IsSound 0 x
unfolding lookup
start-IsSound x e u = record {
  below = λ name i h. ground arith;
  apart = λ a b i h k. ground arith;
  other = λ name v h k. ground arith;
  other_below = λ v h. ground arith;
}

-- Two names never share a field, no name has the map of unknown names, and all are fields of the type.
pub new_parser-IsSound :
    (t : List Field) (key : Bytes) → IsSound (length t) (new_parser t key).index
unfolding new_parser field_index
new_parser-IsSound t key =
    let e : 0 + length t ≡ length t = omega arith in
    rw (← e) (index_fields-IsSound 0 t _ (start-IsSound _ refl refl))
