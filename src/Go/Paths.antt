-- ===== src/Go/Paths.antt =====
-- Go's `path/filepath` on Unix: `Clean`, `Join` of two elements, and `Rel`.
pub mod Clean
use procstats.Base.{
  Bool, true, false, List, [], ◌∷◌, ◌++◌, map, reverse, Option, none, some, ◌==◌, if◌then◌else◌,
  Bytes, codes, equal,
}
use procstats.Go.Strings.{split}

abbrev pub slash : Bytes → Bytes
slash s = b'/' ∷ s

-- A path: is it rooted, and its elements.
abbrev pub Elements : Type 0
Elements = Bool × List Bytes

abbrev pub dot : Bytes
dot = codes "."

abbrev pub dot_dot : Bytes
dot_dot = codes ".."

-- `..` behind the elements `out`, the last first.
abbrev pub go_up : Bool → List Bytes → List Bytes
go_up rooted [] = if rooted then [] else dot_dot ∷ []
go_up rooted (e ∷ out) = if equal e dot_dot then dot_dot ∷ e ∷ out else out

unfoldable pub clean_onto : Bool → List Bytes → List Bytes → List Bytes
clean_onto rooted out [] = out
clean_onto rooted out (e ∷ es) =
    let next =
      if equal e []
      then out
      else if equal e dot
      then out
      else if equal e dot_dot
      then go_up rooted out
      else e ∷ out in
    clean_onto rooted next es

-- The elements of a cleaned path.
unfoldable pub clean_elements : Bytes → Elements
unfolding clean_onto
clean_elements [] = (false, [])
clean_elements (c ∷ s) =
    let rooted = c == b'/' in (rooted, reverse (clean_onto rooted [] (split b'/' (c ∷ s))))

-- Elements with slashes between them.
abbrev pub join_elements : List Bytes → Bytes
join_elements [] = []
join_elements (e ∷ []) = e
join_elements (e ∷ f ∷ es) = e ++ slash (join_elements (f ∷ es))

abbrev pub show : Elements → Bytes
show (true, es) = slash (join_elements es)
show (false, []) = dot
show (false, e ∷ es) = join_elements (e ∷ es)

-- `filepath.Clean`
unfoldable pub clean : Bytes → Bytes
unfolding clean_elements
clean s = show (clean_elements s)

-- `filepath.Join(a, b)`
unfoldable pub join : Bytes → Bytes → Bytes
unfolding clean
join [] [] = []
join [] (c ∷ s) = clean (c ∷ s)
join (c ∷ a) b = clean ((c ∷ a) ++ slash b)

abbrev pub up : List Bytes → List Bytes → List Bytes
up bs ts = map (λ _. dot_dot) bs ++ ts

-- The elements left of both paths behind those they share; `none` is an error.
unfoldable pub rel_elements : List Bytes → List Bytes → Option (List Bytes)
rel_elements [] ts = some ts
rel_elements (b ∷ bs) [] = some (up (b ∷ bs) [])
rel_elements (b ∷ bs) (t ∷ ts) =
    let rest = rel_elements bs ts in
    if equal t b then rest else if equal b dot_dot then none else some (up (b ∷ bs) (t ∷ ts))

abbrev pub show_rel : Option (List Bytes) → Option Bytes
show_rel none = none
show_rel (some []) = some dot
show_rel (some (e ∷ es)) = some (join_elements (e ∷ es))

abbrev pub rel_from : Elements → Elements → Option Bytes
rel_from (true, bs) (true, ts) = show_rel (rel_elements bs ts)
rel_from (true, bs) (false, ts) = none
rel_from (false, bs) (true, ts) = none
rel_from (false, bs) (false, ts) = show_rel (rel_elements bs ts)

-- `filepath.Rel(base, targ)`, where neither is cleaned to `.`; `none` is an error.
unfoldable pub rel : Bytes → Bytes → Option Bytes
unfolding rel_elements clean_elements
rel base targ = rel_from (clean_elements base) (clean_elements targ)
