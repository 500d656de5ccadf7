-- ===== src/Search/Index/Listed.antt =====
-- What is listed after one update.
use mdtree.Prelude.{Bytes, ◌≡◌, ◌≢◌, true, false, arith}
use mdtree.Prelude.Assoc
use mdtree.Prelude.Assoc.{lookup-insert, lookup-erase}
use mdtree.Text.{CaseTable}
use mdtree.Files.Markdown.{is_markdown}
use mdtree.Search.Index.{Index, new_doc, add, rename, remove}
use mdtree.Search.Index.Updates.{is_there}

pub added_there :
    (u : CaseTable) (abs : Bytes) (idx : Index)
    → is_markdown u abs ≡ true
    → is_there (Assoc.lookup abs (add u abs idx).docs) ≡ true
unfolding add
added_there u abs idx md = ground (arith, lookup-insert abs abs (new_doc u abs) idx.docs)

pub removed_gone :
    (abs : Bytes) (idx : Index) → is_there (Assoc.lookup abs (remove abs idx).docs) ≡ false
unfolding remove
removed_gone abs idx = ground (arith, lookup-erase abs abs idx.docs)

pub renamed_there :
    (u : CaseTable) (a b : Bytes) (idx : Index)
    → is_markdown u b ≡ true
    → is_there (Assoc.lookup b (rename u a b idx).docs) ≡ true
unfolding rename
renamed_there u a b idx md =
    ground (arith, lookup-insert b b (new_doc u b) (Assoc.erase a idx.docs))

pub renamed_gone :
    (u : CaseTable) (a b : Bytes) (idx : Index)
    → a ≢ b
    → is_markdown u b ≡ true
    → is_there (Assoc.lookup a (rename u a b idx).docs) ≡ false
unfolding rename
renamed_gone u a b idx d md =
    ground
      (arith, lookup-insert b a (new_doc u b) (Assoc.erase a idx.docs), lookup-erase a a idx.docs)
