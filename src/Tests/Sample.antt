-- ===== src/Tests/Sample.antt =====
-- The inputs of the tests: an ASCII case table and a small tree of files with links.
use mdtree.Prelude.{Bytes, bytes, [], ◌∷◌}
use mdtree.Text.{CaseTable}
use mdtree.Fs.Node.{Fs, dir, file, link, no_fault}

abbrev pub ascii : CaseTable
ascii = record { lower = λ r. r }

abbrev pub root : Bytes
root = bytes "/srv"

-- `/srv` holds a note, a text file, a directory, a link inside and a link outside.
abbrev pub tree : Fs
tree = record {
  nodes =
      (bytes "srv" ∷ [], dir 1)
      ∷ (bytes "srv" ∷ bytes "b.md" ∷ [], file (bytes "hi") 2)
      ∷ (bytes "srv" ∷ bytes "a.txt" ∷ [], file (bytes "no") 3)
      ∷ (bytes "srv" ∷ bytes "Docs" ∷ [], dir 4)
      ∷ (bytes "srv" ∷ bytes "in" ∷ [], link (bytes "Docs") 5)
      ∷ (bytes "srv" ∷ bytes "out" ∷ [], link (bytes "/etc") 6)
      ∷ (bytes "etc" ∷ [], dir 7)
      ∷ [];
  now = 9;
  temp_suffix = bytes "1";
  fault = no_fault;
}
