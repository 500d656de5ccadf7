-- ===== src/Search/Index/Updates.antt =====
-- The index under a sequence of incremental updates.
use mdtree.Prelude.{
  Bytes, bytes_eq, ◌≡◌, refl, Bool, true, false, List, [], ◌∷◌, Option, none, some, arith, ◌||◌,
  ◌&&◌, if◌then◌else◌, All,
}
use mdtree.Prelude.Assoc
use mdtree.Prelude.Assoc.{
  Assoc, HasDistinctKeys, insert-HasDistinctKeys, erase-HasDistinctKeys, lookup-insert,
  lookup-erase,
}
use mdtree.Text.{CaseTable}
use mdtree.Files.Markdown.{is_markdown}
use mdtree.Search.Index.{Doc, new_doc, Index, add, rename, remove}

-- Every document stands under its own path, made from it, and no path stands twice.
abbrev pub IsFiled : CaseTable → Assoc Doc → Type 0
IsFiled u = All (λ e. e.1 ≡ new_doc u e.0)

abbrev pub IsWellFormed : CaseTable → Assoc Doc → Type 0
IsWellFormed u m = IsFiled u m × HasDistinctKeys m

-- What a handler tells the index.
pub data Update : Type 0 where
  added : Bytes → Update
  renamed : Bytes → Bytes → Update
  removed : Bytes → Update

abbrev pub update : CaseTable → Update → Index → Index
update u (added p) idx = add u p idx
update u (renamed a b) idx = rename u a b idx
update u (removed p) idx = remove p idx

-- The updates, newest first.
abbrev pub updates : CaseTable → List Update → Index → Index
updates u [] idx = idx
updates u (e ∷ es) idx = update u e (updates u es idx)

-- Whether a path is indexed, read off the updates: the newest that names it decides.
abbrev decide : CaseTable → Update → Bytes → Bool → Bool
decide u (added p) path before = if bytes_eq p path then is_markdown u p || before else before
decide u (renamed a b) path before =
    if bytes_eq b path && is_markdown u b then true else if bytes_eq a path then false else before
decide u (removed p) path before = if bytes_eq p path then false else before

abbrev pub is_indexed : CaseTable → List Update → Bool → Bytes → Bool
is_indexed u [] before path = before
is_indexed u (e ∷ es) before path = decide u e path (is_indexed u es before path)

abbrev pub is_there : Option Doc → Bool
is_there none = false
is_there (some d) = true

pub insert-IsFiled :
    (u : CaseTable) (p : Bytes) (m : Assoc Doc)
    → IsFiled u m
    → IsFiled u (Assoc.insert p (new_doc u p) m)
unfolding Assoc.insert
insert-IsFiled u p [] h = (refl, tt)
insert-IsFiled u p ((k, d) ∷ m) h = ground (arith, insert-IsFiled u p m)

erase-IsFiled :
    (u : CaseTable) (p : Bytes) (m : Assoc Doc) → IsFiled u m → IsFiled u (Assoc.erase p m)
unfolding Assoc.erase
erase-IsFiled u p [] h = tt
erase-IsFiled u p ((k, d) ∷ m) h = ground (arith, erase-IsFiled u p m)

pub insert-IsWellFormed :
    (u : CaseTable) (p : Bytes) (m : Assoc Doc)
    → IsWellFormed u m
    → IsWellFormed u (Assoc.insert p (new_doc u p) m)
insert-IsWellFormed u p m h =
    (insert-IsFiled u p m h.0, insert-HasDistinctKeys p (new_doc u p) m h.1)

erase-IsWellFormed :
    (u : CaseTable) (p : Bytes) (m : Assoc Doc)
    → IsWellFormed u m
    → IsWellFormed u (Assoc.erase p m)
erase-IsWellFormed u p m h = (erase-IsFiled u p m h.0, erase-HasDistinctKeys p m h.1)

pub update-IsWellFormed :
    (u : CaseTable) (e : Update) (idx : Index)
    → IsWellFormed u idx.docs
    → IsWellFormed u (update u e idx).docs
unfolding add rename remove
update-IsWellFormed u (added p) idx h = ground (arith, insert-IsWellFormed u p idx.docs)
update-IsWellFormed u (renamed a b) idx h =
    ground
      (arith, erase-IsWellFormed u a idx.docs, insert-IsWellFormed u b (Assoc.erase a idx.docs))
update-IsWellFormed u (removed p) idx h = erase-IsWellFormed u p idx.docs h

-- Updates keep every document under its own path, made from it, and no path twice.
updates-IsWellFormed :
    (u : CaseTable) (es : List Update) (idx : Index)
    → IsWellFormed u idx.docs
    → IsWellFormed u (updates u es idx).docs
updates-IsWellFormed u [] idx h = h
updates-IsWellFormed u (e ∷ es) idx h =
    update-IsWellFormed u e (updates u es idx) (updates-IsWellFormed u es idx h)

update-is_indexed :
    (u : CaseTable) (e : Update) (idx : Index) (path : Bytes)
    → is_there (Assoc.lookup path (update u e idx).docs)
      ≡ decide u e path (is_there (Assoc.lookup path idx.docs))
unfolding add rename remove
update-is_indexed u (added p) idx path = ground (arith, lookup-insert p path (new_doc u p) idx.docs)
update-is_indexed u (renamed a b) idx path = ground (
  arith,
  lookup-insert b path (new_doc u b) (Assoc.erase a idx.docs),
  lookup-erase a path idx.docs,
)
update-is_indexed u (removed p) idx path = ground (arith, lookup-erase p path idx.docs)

-- After any updates, a path is indexed exactly when the newest update that decides on it put it
-- there, or, where none does, when it was indexed before.
pub updates-is_indexed :
    (u : CaseTable) (es : List Update) (idx : Index) (path : Bytes)
    → is_there (Assoc.lookup path (updates u es idx).docs)
      ≡ is_indexed u es (is_there (Assoc.lookup path idx.docs)) path
updates-is_indexed u [] idx path = refl
updates-is_indexed u (e ∷ es) idx path =
    rw (update-is_indexed u e (updates u es idx) path, updates-is_indexed u es idx path) refl
