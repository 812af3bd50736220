-- ===== src/Cgresolver/ProcCgroup/Range.antt =====
-- `parseCGSubsystems` reads no row behind its last column.
use mathlib.Core.Path.{subst}
use procstats.Base.{
  ℕ, zero, suc, sym, ◌<◌, ◌+◌, ◌≡◌, ◌≢◌, refl, Bool, true, false, List, [], ◌∷◌, Option, none, some,
  arith, ◌==◌, if◌then◌else◌, Bytes, codes, equal, length, Result, ok, err, ◌>>=◌, require, check,
}
use procstats.Base.Int.{pos}
use procstats.Cgresolver.ProcCgroup.Table.{
  Columns, found, find_column, find_columns, value_at, number_at, bool_at, optional_at, extract_row,
  extract_remapped,
}
use procstats.Cgresolver.ProcCgroup.{Error, wrong_columns, bad_number, bad_enabled, out_of_range}
use procstats.Go.Strconv.{parse_int, parse_bool}
use procstats.Go.Strings.{lower}

-- A result that has a property, or an error that is not the panic of an index.
abbrev pub Within : {A : Type 0} → (A → Type 0) → Result Error A → Type 0
Within P (ok a) = P a
Within P (err e) = e ≢ out_of_range

abbrev pub Any : {A : Type 0} → A → Type 0
Any a = Unit

pub bind-Within :
    {A B : Type 0} (P : A → Type 0) (Q : B → Type 0) (r : Result Error A) (f : A → Result Error B)
    → Within P r
    → ((a : A) → P a → Within Q (f a))
    → Within Q (r >>= f)
bind-Within P Q (ok a) f h k = k a h
bind-Within P Q (err e) f h k = h

pub require-Within :
    {A : Type 0} (o : Option A) (e : Error) → e ≢ out_of_range → Within Any (require o e)
require-Within none e h = h
require-Within (some a) e h = tt

pub check-Within : (b : Bool) (e : Error) → e ≢ out_of_range → Within (λ _. b ≡ true) (check b e)
check-Within true e h = refl
check-Within false e h = h

value_at-Within : (vals : List Bytes) (i : ℕ) → i < length vals → Within Any (value_at vals i)
value_at-Within [] i h = absurd (omega arith)
value_at-Within (v ∷ vals) zero h = tt
value_at-Within (v ∷ vals) (suc i) h = value_at-Within vals i (omega arith)

number_at-Within : (vals : List Bytes) (i : ℕ) → i < length vals → Within Any (number_at vals i)
number_at-Within vals i h =
    bind-Within Any Any (value_at vals i) _ (value_at-Within vals i h)
      (λ v _. require-Within (parse_int 64 v) bad_number (λ e. cc))

bool_at-Within : (vals : List Bytes) (i : ℕ) → i < length vals → Within Any (bool_at vals i)
bool_at-Within vals i h =
    bind-Within Any Any (value_at vals i) _ (value_at-Within vals i h)
      (λ v _. require-Within (parse_bool v) bad_enabled (λ e. cc))

-- A column that was found is one of the first `n`.
abbrev pub Below : ℕ → Option ℕ → Type 0
Below n none = Unit
Below n (some i) = i < n

abbrev pub AllBelow : ℕ → Columns → Type 0
AllBelow n c =
    Below n c.subsys_col × Below n c.hier_col × Below n c.n_cg_col × Below n c.enabled_col

optional_at-Within :
    {A : Type 0} (get : List Bytes → ℕ → Result Error A) (vals : List Bytes) (o : Option ℕ) (d : A)
    → ((i : ℕ) → i < length vals → Within Any (get vals i))
    → Below (length vals) o
    → Within Any (optional_at get vals o d)
optional_at-Within get vals none d h b = tt
optional_at-Within get vals (some i) d h b = h i b

pub extract_row-Within : (vals : List Bytes) → Within Any (extract_row vals)
unfolding extract_row
extract_row-Within vals =
    bind-Within (λ _. (length vals == 4) ≡ true) Any (check (length vals == 4) wrong_columns) _
      (check-Within (length vals == 4) wrong_columns (λ e. cc))
      (λ _ w.
        let four : length vals ≡ 4 = ground arith in
        bind-Within Any Any (number_at vals 1) _ (number_at-Within vals 1 (omega arith))
          (λ hier_num _.
            bind-Within Any Any (number_at vals 2) _ (number_at-Within vals 2 (omega arith))
              (λ num_cg _.
                bind-Within Any Any (bool_at vals 3) _ (bool_at-Within vals 3 (omega arith))
                  (λ is_enabled _.
                    bind-Within Any Any (value_at vals 0) _ (value_at-Within vals 0 (omega arith))
                      (λ name _. tt)))))

pub extract_remapped-Within :
    (width s h : ℕ) (c : Columns) (vals : List Bytes)
    → s < width
    → h < width
    → AllBelow width c
    → Within Any (extract_remapped width s h c vals)
unfolding extract_remapped
extract_remapped-Within width s h c vals hs hh (_, _, bn, be) =
    bind-Within (λ _. (length vals == width) ≡ true) Any
      (check (length vals == width) wrong_columns) _
      (check-Within (length vals == width) wrong_columns (λ e. cc))
      (λ _ w.
        let same : length vals ≡ width = ground arith in
        bind-Within Any Any (number_at vals h) _ (number_at-Within vals h (omega arith))
          (λ hier_num _.
            bind-Within Any Any (value_at vals s) _ (value_at-Within vals s (omega arith))
              (λ name _.
                bind-Within Any Any (optional_at number_at vals c.n_cg_col (pos 0)) _
                  (optional_at-Within number_at vals c.n_cg_col (pos 0) (number_at-Within vals)
                    (subst (λ n. Below n c.n_cg_col) (sym same) bn))
                  (λ num_cg _.
                    bind-Within Any Any (optional_at bool_at vals c.enabled_col true) _
                      (optional_at-Within bool_at vals c.enabled_col true (bool_at-Within vals)
                        (subst (λ n. Below n c.enabled_col) (sym same) be))
                      (λ is_enabled _. tt)))))

Below-later : (n : ℕ) (o : Option ℕ) → Below n o → Below (suc n) o
Below-later n none h = tt
Below-later n (some i) h = omega arith

AllBelow-later : (n : ℕ) (c : Columns) → AllBelow n c → AllBelow (suc n) c
AllBelow-later n c (a, b, d, e) = (
  Below-later n c.subsys_col a,
  Below-later n c.hier_col b,
  Below-later n c.n_cg_col d,
  Below-later n c.enabled_col e,
)

found-Within : (i : ℕ) (o : Option ℕ) → Within (Below (suc i)) (found i o)
found-Within i none = omega arith
found-Within i (some j) = λ e. cc

find_column-Within :
    (i : ℕ) (head : Bytes) (c : Columns)
    → AllBelow i c
    → Within (AllBelow (suc i)) (find_column i head c)
unfolding find_column
find_column-Within i head c h =
    by_name (equal head (codes "subsys_name")) (equal head (codes "hierarchy"))
      (equal head (codes "num_cgroups")) (equal head (codes "enabled"))
  where
    by_name :
        (p q r s : Bool)
        → Within (AllBelow (suc i)) (
            if p
            then found i c.subsys_col >>= (λ o. ok (record c { subsys_col = o }))
            else if q
            then found i c.hier_col >>= (λ o. ok (record c { hier_col = o }))
            else if r
            then found i c.n_cg_col >>= (λ o. ok (record c { n_cg_col = o }))
            else if s
            then found i c.enabled_col >>= (λ o. ok (record c { enabled_col = o }))
            else ok c)
    by_name true q r s =
        let (a, b, d, e) = AllBelow-later i c h in
        bind-Within (Below (suc i)) (AllBelow (suc i)) (found i c.subsys_col) _
          (found-Within i c.subsys_col) (λ o w. (w, b, d, e))
    by_name false true r s =
        let (a, b, d, e) = AllBelow-later i c h in
        bind-Within (Below (suc i)) (AllBelow (suc i)) (found i c.hier_col) _
          (found-Within i c.hier_col) (λ o w. (a, w, d, e))
    by_name false false true s =
        let (a, b, d, e) = AllBelow-later i c h in
        bind-Within (Below (suc i)) (AllBelow (suc i)) (found i c.n_cg_col) _
          (found-Within i c.n_cg_col) (λ o w. (a, b, w, e))
    by_name false false false true =
        let (a, b, d, e) = AllBelow-later i c h in
        bind-Within (Below (suc i)) (AllBelow (suc i)) (found i c.enabled_col) _
          (found-Within i c.enabled_col) (λ o w. (a, b, d, w))
    by_name false false false false = AllBelow-later i c h

pub find_columns-Within :
    (i : ℕ) (heads : List Bytes) (c : Columns)
    → AllBelow i c
    → Within (AllBelow (i + length heads)) (find_columns i heads c)
unfolding find_columns
find_columns-Within i [] c h = let e : i ≡ i + 0 = omega arith in subst (λ n. AllBelow n c) e h
find_columns-Within i (head ∷ heads) c h =
    bind-Within (AllBelow (suc i)) (AllBelow (i + length (head ∷ heads)))
      (find_column i (lower head) c) _ (find_column-Within i (lower head) c h)
      (λ d w.
        let e : suc i + length heads ≡ i + length (head ∷ heads) = omega arith in
        subst (λ n. Within (AllBelow n) (find_columns (suc i) heads d)) e
          (find_columns-Within (suc i) heads d w))
