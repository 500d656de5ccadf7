-- ===== src/Files/Markdown.antt =====
-- Which names are markdown: internal/files/path.go.
use mdtree.Prelude.{Bytes, bytes, Bool, List, [], ◌∷◌, has}
use mdtree.Text.{CaseTable, to_lower}
use mdtree.FilePath.{ext}

abbrev pub markdown_exts : List Bytes
markdown_exts = bytes ".md" ∷ bytes ".markdown" ∷ bytes ".mdown" ∷ bytes ".mkd" ∷ bytes ".mkdn" ∷ []

unfoldable pub is_markdown : CaseTable → Bytes → Bool
is_markdown u name = has markdown_exts (to_lower u (ext name))
