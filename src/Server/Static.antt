-- ===== src/Server/Static.antt =====
-- `spaHandler` of internal/server/static.go. The front end's files are a parameter.
use mdtree.Prelude.{Bytes, bytes, bytes_eq, Bool, not, ◌||◌, List, [], ◌∷◌, ◌++◌, if◌then◌else◌}
use mdtree.Text.{has_prefix}
use mdtree.Prelude.{drop, length}
use mdtree.FilePath.{clean}
use mdtree.Auth.Middleware.{Response}

-- The files that are embedded: whether fs.Stat finds a name, and what http.FileServer answers for
-- a path.
pub record Dist : Type 0 where
  pub has_entry : Bytes → Bool
  pub file_server : Bytes → Response

abbrev page_lines : List Bytes
page_lines =
    bytes "<!doctype html>"
    ∷ bytes "<html lang=\"en\"><head><meta charset=\"utf-8\"><title>mdtree</title>"
    ∷ bytes
        "<style>body{font:16px/1.6 system-ui,sans-serif;max-width:40rem;margin:4rem auto;padding:0 1.5rem;color:#1a1a1a}code{background:#eee;padding:.15em .4em;border-radius:4px}</style>"
    ∷ bytes "</head><body>"
    ∷ bytes "<h1>mdtree</h1>"
    ∷ bytes "<p>The backend is running, but the frontend has not been built into this binary.</p>"
    ∷ bytes "<p>Build it and rebuild the binary:</p>"
    ∷ bytes "<pre><code>npm --prefix web install"
    ∷ bytes "npm --prefix web run build"
    ∷ bytes "go build ./cmd/mdtree</code></pre>"
    ∷ bytes "<p>Or run <code>scripts/build.sh</code>.</p>"
    ∷ bytes "</body></html>"
    ∷ []

-- The lines, with a newline between them.
abbrev join_lines : List Bytes → Bytes
join_lines [] = []
join_lines (l ∷ []) = l
join_lines (l ∷ ls) = l ++ (10 ∷ join_lines ls)

abbrev pub frontend_missing_html : Bytes
frontend_missing_html = join_lines page_lines

abbrev pub frontend_missing : Response
frontend_missing = record {
  status = 503;
  content_type = bytes "text/html; charset=utf-8";
  body = frontend_missing_html;
}

abbrev trim_prefix : Bytes → Bytes → Bytes
trim_prefix s prefix = if has_prefix s prefix then drop (length prefix) s else s

-- The file that a path asks for.
unfoldable pub asset_name : Bytes → Bytes
asset_name path =
    let name = trim_prefix (clean path) (bytes "/") in
    if bytes_eq name [] || bytes_eq name (bytes ".") then bytes "index.html" else name

unfoldable pub spa_handler : Dist → Bytes → Response
spa_handler dist path =
    if not (dist.has_entry (bytes "index.html"))
    then frontend_missing
    else if not (dist.has_entry (asset_name path))
    then dist.file_server (bytes "/")
    else dist.file_server path
