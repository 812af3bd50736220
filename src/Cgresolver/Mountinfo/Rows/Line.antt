-- ===== src/Cgresolver/Mountinfo/Rows/Line.antt =====
-- What the parser of cgresolver/mountinfo_parse.go makes of a row's line.
use mathlib.Core.Option
use procstats.Base.{
  ℕ, ◌<◌, Bool, List, [], ◌∷◌, ◌++◌, Option, none, some, ◌≡◌, ◌≢◌, refl, append_assoc, append-nil,
  arith, if◌then◌else◌, Bytes, codes, equal_iff, All, ◌⊎◌, inl, inr, ok,
}
use procstats.Cgresolver.Mountinfo.Octal.{octal_escape, un_octal_escape-octal_escape}
use procstats.Cgresolver.Mountinfo.{
  un_octal_escape, option_subsystems, cgroup_type, type_fields, cgroup_mount, typed_mount,
  mount_line,
}
use procstats.Go.Strings.Cut.{Lacks, split-append, split-Lacks, split_n-append}
use procstats.Go.Strings.{cut, split, split_n, strip_prefix, push_first}
use procstats.Cgresolver.Mountinfo.Rows.{
  is_mangled, Row, join, first_section, row_line, IsWord, IsAbsolute, IsPlain, IsRow, row_mount,
  named_subsystems, is_v2_type,
}

cut_word :
    (w s : Bytes)
    → Lacks b' ' w
    → cut (codes " - ") (w ++ s)
      ≡ Option.map (λ (p : Bytes × Bytes). (w ++ p.0, p.1)) (cut (codes " - ") s)
unfolding cut strip_prefix
cut_word [] s h = ground arith
cut_word (c ∷ w) s (hc, hw) = ground (arith, cut_word w s hw)

cut_space :
    (x : ℕ) (s : Bytes)
    → x ≢ b'-'
    → cut (codes " - ") (b' ' ∷ x ∷ s) ≡ Option.map (push_first b' ') (cut (codes " - ") (x ∷ s))
unfolding cut strip_prefix
cut_space x s h = ground arith

-- A space in front of a field is not the separator.
cut_field_space :
    (v : Bytes) (ws : List Bytes) (s : Bytes)
    → IsWord v
    → cut (codes " - ") (b' ' ∷ (join b' ' (v ∷ ws) ++ b' ' ∷ s))
      ≡ Option.map (push_first b' ') (cut (codes " - ") (join b' ' (v ∷ ws) ++ b' ' ∷ s))
cut_field_space [] [] s h = cut_space b' ' s (omega arith)
cut_field_space [] (u ∷ us) s h = cut_space b' ' _ (omega arith)
cut_field_space (c ∷ v) [] s h = cut_space c _ h.2
cut_field_space (c ∷ v) (u ∷ us) s h = cut_space c _ h.2

word-Lacks : (w : Bytes) → IsWord w → Lacks b' ' w
word-Lacks [] h = tt
word-Lacks (c ∷ w) h = h.0

-- The separator is found behind the last field.
cut_words :
    (w : Bytes) (ws : List Bytes) (b : Bytes)
    → All IsWord (w ∷ ws)
    → cut (codes " - ") (join b' ' (w ∷ ws) ++ (codes " - " ++ b)) ≡ some (join b' ' (w ∷ ws), b)
cut_words w [] b (hw, _) =
    rw (cut_word w _ (word-Lacks w hw)) (unfold cut strip_prefix in rw append-nil)
cut_words w (v ∷ ws) b (hw, hv) =
    rw (
      append_assoc,
      cut_word w _ (word-Lacks w hw),
      cut_field_space v ws _ hv.0,
      cut_words v ws b hv,
    )

split_words :
    (w : Bytes) (ws : List Bytes) → All IsWord (w ∷ ws) → split b' ' (join b' ' (w ∷ ws)) ≡ w ∷ ws
split_words w [] (hw, _) = split-Lacks b' ' w (word-Lacks w hw)
split_words w (v ∷ ws) (hw, hv) = rw (split-append b' ' w _ (word-Lacks w hw), split_words v ws hv)

split_options :
    (o : Bytes) (os : List Bytes)
    → All (IsPlain b',') (o ∷ os)
    → split b',' (join b',' (o ∷ os)) ≡ o ∷ os
split_options o [] (ho, _) = split-Lacks b',' o ho.0
split_options o (q ∷ os) (ho, hq) = rw (split-append b',' o _ ho.0, split_options q os hq)

-- An escaped path is a field.
octal_escape-Lacks :
    (k : ℕ) (s : Bytes)
    → (k ≡ b' ') ⊎ (k ≡ b'\n')
    → All (λ c. c < 256) s
    → Lacks k (octal_escape is_mangled s)
unfolding octal_escape
octal_escape-Lacks k [] h b = tt
octal_escape-Lacks k (c ∷ s) h (hc, hs) = let rest = octal_escape-Lacks k s h hs in ground arith

octal_escape_slash :
    (c : ℕ) (s : Bytes) → c ≡ b'/' → octal_escape is_mangled (c ∷ s) ≡ c ∷ octal_escape is_mangled s
unfolding octal_escape
octal_escape_slash c s h = ground arith

pub octal_escape-IsWord : (s : Bytes) → IsAbsolute s → IsWord (octal_escape is_mangled s)
octal_escape-IsWord [] h = elim h [ ]
octal_escape-IsWord (c ∷ s) (slash, b) = rw (octal_escape_slash c s slash) (
  (omega arith, octal_escape-Lacks b' ' s (inl refl) b.1),
  (omega arith, octal_escape-Lacks b'\n' s (inr refl) b.1),
  omega arith,
)

un_octal_path : (s : Bytes) → IsAbsolute s → un_octal_escape (octal_escape is_mangled s) ≡ ok s
un_octal_path [] h = elim h [ ]
un_octal_path (c ∷ s) h = un_octal_escape-octal_escape is_mangled (c ∷ s) refl h.1

pub first_section-IsWord : {r : Row} → IsRow r → All IsWord (first_section r)
first_section-IsWord {r} h = (
  h.id_word,
  (
    h.parent_word,
    (
      h.device_word,
      (
        octal_escape-IsWord r.root h.root_path,
        (octal_escape-IsWord r.mountpoint h.mountpoint_path, h.optional_words),
      ),
    ),
  ),
)

type_fields_row :
    (t src o : Bytes)
    → IsPlain b' ' t
    → IsPlain b' ' src
    → type_fields (split_n 3 (codes " ") (t ++ b' ' ∷ (src ++ b' ' ∷ o))) ≡ some (t, o)
unfolding split_n
type_fields_row t src o ht hs =
    rw (split_n-append 1 b' ' t _ ht.0, split_n-append 0 b' ' src o hs.0)

split_super_options :
    (os : List Bytes) → os ≢ [] → All (IsPlain b',') os → split b',' (join b',' os) ≡ os
split_super_options [] h _ = absurd (h refl)
split_super_options (o ∷ os) _ h = split_options o os h

option_subsystems-named : (os : List Bytes) → option_subsystems os ≡ named_subsystems os
unfolding option_subsystems
option_subsystems-named [] = refl
option_subsystems-named (o ∷ os) = rw (option_subsystems-named os) refl

cgroup_type-is_v2 : (t : Bytes) → cgroup_type t ≡ is_v2_type t
cgroup_type-is_v2 t = ground (arith, equal_iff t (codes "cgroup"), equal_iff t (codes "cgroup2"))

cgroup_mount-row :
    (r : Row) (is_cg2 : Bool)
    → IsRow r
    → cgroup_mount is_cg2 (join b' ' (first_section r)) (join b',' r.super_options)
      ≡ ok (record {
        mountpoint = r.mountpoint;
        root = r.root;
        subsystems = if is_cg2 then [] else named_subsystems r.super_options;
        cgroup_v2 = is_cg2;
      })
unfolding cgroup_mount
cgroup_mount-row r is_cg2 h = rw (
  split_words _ _ (first_section-IsWord h),
  un_octal_path _ h.mountpoint_path,
  un_octal_path _ h.root_path,
  split_super_options _ h.super_options_ne_nil h.super_options_plain,
  option_subsystems-named r.super_options,
)

typed_mount-row :
    (r : Row) (o : Option Bool)
    → IsRow r
    → is_v2_type r.fs_type ≡ o
    → typed_mount o (join b' ' (first_section r)) (join b',' r.super_options) ≡ ok (row_mount r)
unfolding typed_mount
typed_mount-row r none h e = rw e
typed_mount-row r (some is_cg2) h e = rw (cgroup_mount-row r is_cg2 h, e)

pub mount_line-row : (r : Row) → IsRow r → mount_line (row_line r) ≡ ok (row_mount r)
unfolding mount_line
mount_line-row r h =
    rw
      (
        cut_words _ _ _ (first_section-IsWord h),
        type_fields_row r.fs_type r.source _ h.fs_type_plain h.source_plain,
      )
      (rw (cgroup_type-is_v2 r.fs_type) (typed_mount-row r _ h refl))
