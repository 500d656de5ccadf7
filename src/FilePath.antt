-- ===== src/FilePath.antt =====
-- Go's `path/filepath` on a Unix system, as far as the program calls it, element by element.
pub mod Split
pub mod Clean
pub mod Rel
pub mod Join
pub mod Dir
use mathlib.Core.List.{reverse}
use mdtree.Prelude.{
  ℕ, Bytes, bytes_eq, Bool, true, false, not, ◌&&◌, ◌||◌, List, [], ◌∷◌, ◌++◌, map, Option, none,
  some, ◌==◌, if◌then◌else◌,
}

abbrev pub slash : ℕ
slash = b'/'

abbrev pub dot : Bytes
dot = b'.' ∷ []

abbrev pub dotdot : Bytes
dotdot = b'.' ∷ b'.' ∷ []

abbrev cons_head : ℕ → List Bytes → List Bytes
cons_head c [] = (c ∷ []) ∷ []
cons_head c (x ∷ xs) = (c ∷ x) ∷ xs

-- `strings.Split(s, "/")`.
unfoldable pub split_slash : Bytes → List Bytes
split_slash [] = [] ∷ []
split_slash (c ∷ s) = let rest = split_slash s in if c == slash then [] ∷ rest else cons_head c rest

-- `strings.Join(es, "/")`.
unfoldable pub join_slash : List Bytes → Bytes
join_slash [] = []
join_slash (x ∷ []) = x
join_slash (x ∷ y ∷ xs) = x ++ (slash ∷ join_slash (y ∷ xs))

-- `filepath.IsAbs`.
unfoldable pub is_abs : Bytes → Bool
is_abs [] = false
is_abs (c ∷ s) = c == slash

-- ".." above the start of a relative path stays; above "/" it is dropped.
abbrev pop_elem : Bool → List Bytes → List Bytes
pop_elem rooted [] = if rooted then [] else dotdot ∷ []
pop_elem rooted (top ∷ stack) = if bytes_eq top dotdot then dotdot ∷ top ∷ stack else stack

unfoldable pub clean_step : Bool → List Bytes → Bytes → List Bytes
clean_step rooted stack e =
    if bytes_eq e [] || bytes_eq e dot
    then stack
    else if bytes_eq e dotdot
    then pop_elem rooted stack
    else e ∷ stack

unfoldable pub clean_elems : Bool → List Bytes → List Bytes → List Bytes
unfolding clean_step
clean_elems rooted stack [] = reverse stack
clean_elems rooted stack (e ∷ es) = clean_elems rooted (clean_step rooted stack e) es

unfoldable pub render : Bool → List Bytes → Bytes
render true es = slash ∷ join_slash es
render false [] = dot
render false (e ∷ es) = join_slash (e ∷ es)

-- `filepath.Clean`.
unfoldable pub clean : Bytes → Bytes
unfolding clean_elems split_slash join_slash render is_abs
clean p = render (is_abs p) (clean_elems (is_abs p) [] (split_slash p))

-- `filepath.Join(a, b)`.
unfoldable pub join : Bytes → Bytes → Bytes
unfolding clean
join a b =
    if bytes_eq a [] then (if bytes_eq b [] then [] else clean b) else clean (a ++ (slash ∷ b))

-- The elements of a clean path.
unfoldable pub elems_of : List Bytes → List Bytes
elems_of [] = []
elems_of (e ∷ es) = if bytes_eq e [] || bytes_eq e dot then elems_of es else e ∷ elems_of es

unfoldable pub elems : Bytes → List Bytes
unfolding elems_of split_slash
elems p = elems_of (split_slash p)

drop_slashes : Bytes → Bytes
drop_slashes [] = []
drop_slashes (c ∷ s) = if c == slash then drop_slashes s else c ∷ s

last_elem : Bytes → Bytes → Bytes
last_elem cur [] = cur
last_elem cur (c ∷ s) = last_elem (if c == slash then s else cur) s

-- `filepath.Base`: the last element, with trailing slashes dropped.
unfoldable pub base : Bytes → Bytes
unfolding drop_slashes last_elem
base [] = dot
base (c ∷ s) =
    let p = reverse (drop_slashes (reverse (c ∷ s))) in
    if bytes_eq p [] then slash ∷ [] else last_elem p p

skip_elem : Bytes → Bytes
skip_elem [] = []
skip_elem (c ∷ s) = if c == slash then c ∷ s else skip_elem s

-- `filepath.Dir`: what stands before the last slash and that slash, cleaned.
unfoldable pub dir : Bytes → Bytes
unfolding skip_elem clean
dir p = clean (reverse (skip_elem (reverse p)))

ext_from : Bytes → Bytes → Bytes
ext_from found [] = found
ext_from found (c ∷ s) = ext_from (if c == slash then [] else if c == b'.' then c ∷ s else found) s

-- `filepath.Ext`: from the last dot of the last element.
unfoldable pub ext : Bytes → Bytes
unfolding ext_from
ext = ext_from []

-- `filepath.Rel` of two lists of elements; a base that goes up has no answer.
unfoldable pub rel_elems : List Bytes → List Bytes → Option Bytes
unfolding join_slash
rel_elems [] ts = some (join_slash ts)
rel_elems (b ∷ bs) [] =
    if bytes_eq b dotdot then none else some (join_slash (map (λ _. dotdot) (b ∷ bs)))
rel_elems (b ∷ bs) (t ∷ ts) =
    let deeper = rel_elems bs ts in
    if bytes_eq b t
    then deeper
    else if bytes_eq b dotdot
    then none
    else some (join_slash (map (λ _. dotdot) (b ∷ bs) ++ (t ∷ ts)))

-- `filepath.Rel`, with `none` for its error.
unfoldable pub rel : Bytes → Bytes → Option Bytes
unfolding clean rel_elems elems
rel base_path target =
    let b = clean base_path in
    let t = clean target in
    if bytes_eq b t
    then some dot
    else if not (is_abs b) && is_abs t || is_abs b && not (is_abs t)
    then none
    else rel_elems (elems b) (elems t)
