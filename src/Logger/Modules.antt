-- ===== src/Logger/Modules.antt =====
-- The module of a record, from its own attributes and from those of the scopes of its logger.
use mdtree.Prelude.{
  Bytes, bytes_eq, ◌≡◌, ◌∙◌, refl, Bool, true, not, ◌&&◌, ◌||◌, List, [], ◌∷◌, Option, none, some,
  arith, has, map, if◌then◌else◌,
}
use mdtree.Text.{trim_space}
use mdtree.Logger.{
  Attr, Record, Scope, with_attrs, with_group, is_module, record_module, attrs_module, scope_module,
}

abbrev pub or_else : Option Bytes → Option Bytes → Option Bytes
or_else (some n) o = some n
or_else none o = o

abbrev pub own_name : Attr → Option Bytes
own_name a = if is_module a then some a.value else none

abbrev pub first_name : List Attr → Option Bytes
first_name [] = none
first_name (a ∷ rest) = or_else (own_name a) (first_name rest)

abbrev pub last_name : List Attr → Option Bytes
last_name [] = none
last_name (a ∷ rest) = or_else (last_name rest) (own_name a)

abbrev pub scope_name : Scope → Option Bytes
scope_name (with_attrs attrs) = last_name attrs
scope_name (with_group name) = none

-- The module that the newest scope names.
abbrev pub newest_name : List Scope → Option Bytes
newest_name [] = none
newest_name (sc ∷ scs) = or_else (scope_name sc) (newest_name scs)

abbrev pub allowed_name : List Bytes → Option Bytes → Bool
allowed_name allowed none = true
allowed_name allowed (some n) = bytes_eq n [] || has allowed n

-- Whether a record is let through: its own module counts before those of the scopes, and without a
-- list of modules all are.
abbrev pub passes : List Bytes → List Scope → Record → Bool
passes [] scs r = true
passes (m ∷ ms) scs r =
    allowed_name (map trim_space (m ∷ ms)) (or_else (first_name r.attrs) (newest_name scs))

abbrev pub or_tag : Bytes → Option Bytes → Bytes
or_tag tag none = tag
or_tag tag (some n) = n

attrs_module-or_tag :
    (tag : Bytes) (attrs : List Attr) → attrs_module tag attrs ≡ or_tag tag (last_name attrs)
unfolding attrs_module
attrs_module-or_tag tag [] = refl
attrs_module-or_tag tag (a ∷ rest) =
    ground (arith, attrs_module-or_tag tag rest, attrs_module-or_tag a.value rest)

pub record_module-or_tag :
    (tag : Bytes) (attrs : List Attr) → record_module tag attrs ≡ or_tag tag (first_name attrs)
unfolding record_module
record_module-or_tag tag [] = refl
record_module-or_tag tag (a ∷ rest) = ground (arith, record_module-or_tag tag rest)

pub tag_derived :
    (sc : Scope) (o : Option Bytes)
    → scope_module (or_tag [] o) sc ≡ or_tag [] (or_else (scope_name sc) o)
tag_derived (with_group name) o = refl
tag_derived (with_attrs attrs) o = attrs_module-or_tag (or_tag [] o) attrs ∙ go (last_name attrs)
  where
    go : (l : Option Bytes) → or_tag (or_tag [] o) l ≡ or_tag [] (or_else l o)
    go none = refl
    go (some n) = refl

pub filter-passes :
    (allowed : List Bytes) (own newest : Option Bytes)
    → not (bytes_eq (or_tag (or_tag [] newest) own) [])
        && not (has allowed (or_tag (or_tag [] newest) own))
      ≡ not (allowed_name allowed (or_else own newest))
filter-passes allowed none none = ground arith
filter-passes allowed none (some n) = ground arith
filter-passes allowed (some n) newest = ground arith
