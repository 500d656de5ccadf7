-- ===== src/Api/Files.antt =====
-- The handlers of internal/api/files.go.
use mdtree.Prelude.{Bytes, bytes, bytes_eq, [], ◌∷◌, if◌then◌else◌}
use mdtree.Result.{Result, ok, err}
use mdtree.Files.Error.{Error}
use mdtree.Files.Resolver.{resolve}
use mdtree.Files.Manager.{resolve_path}
use mdtree.Files.Manager
use mdtree.Files.Lister.{list}
use mdtree.Search.Index
use mdtree.Auth.Middleware.{Response}
use mdtree.Metrics.{inc_file_read, inc_file_write}
use mdtree.Api.Handler.{
  Handler, World, Request, ok_value, path_value, listing_value, content_value, info_value, get,
  write_json, decode_json, with_fields, with_files,
}

-- `abs, _ := ResolvePath(path)`: an error comes with an empty path.
abbrev pub or_empty : Result Error Bytes → Bytes
or_empty (ok abs) = abs
or_empty (err e) = []

abbrev pub path_field : Bytes
path_field = bytes "path"

abbrev pub content_field : Bytes
content_field = bytes "content"

abbrev pub from_field : Bytes
from_field = bytes "from"

abbrev pub to_field : Bytes
to_field = bytes "to"

module _ (h : Handler) where
  unfoldable pub tree : Request → World → Response × World
  tree r =
      let given = get path_field r.query in
      let path = if bytes_eq given [] then h.root else given in
      with_files h (list h.cases h.lister path)
        λ listing w. (write_json h 200 (listing_value listing), w)

  unfoldable pub get_file : Request → World → Response × World
  get_file r =
      with_files h (Manager.read h.cases h.files (get path_field r.query)) λ fc w.
        (write_json h 200 (content_value fc), record w { metrics = inc_file_read w.metrics })

  unfoldable pub save_file : Request → World → Response × World
  save_file r = with_fields h (decode_json h (path_field ∷ content_field ∷ []) r) λ req.
      with_files h (Manager.save h.cases h.files (req path_field) (req content_field)) λ info w.
        (write_json h 200 (info_value info), record w { metrics = inc_file_write w.metrics })

  unfoldable pub create_file : Request → World → Response × World
  create_file r = with_fields h (decode_json h (path_field ∷ content_field ∷ []) r) λ req.
      with_files h (Manager.create h.cases h.files (req path_field) (req content_field)) λ info w. (
        write_json h 201 (info_value info),
        record w {
          index = Index.add h.cases info.path w.index;
          metrics = inc_file_write w.metrics;
        },
      )

  unfoldable pub delete_file : Request → World → Response × World
  delete_file r =
      let path = get path_field r.query in
      with_files h (resolve_path h.cases h.files path) λ abs.
        with_files h (Manager.delete h.cases h.files path)
          λ _ w. (write_json h 200 ok_value, record w { index = Index.remove abs w.index })

  unfoldable pub rename_file : Request → World → Response × World
  rename_file r = with_fields h (decode_json h (from_field ∷ to_field ∷ []) r) λ req.
      with_files h (resolve_path h.cases h.files (req from_field)) λ abs_from.
        with_files h (Manager.rename h.cases h.files (req from_field) (req to_field)) λ info w. (
          write_json h 200 (info_value info),
          record w { index = Index.rename h.cases abs_from info.path w.index },
        )

  unfoldable pub mkdir : Request → World → Response × World
  mkdir r = with_fields h (decode_json h (path_field ∷ []) r) λ req.
      with_files h (Manager.mkdir h.files (req path_field))
        λ _ w. (write_json h 201 (path_value (or_empty (resolve h.files w.fs (req path_field)))), w)

  unfoldable pub delete_dir : Request → World → Response × World
  delete_dir r =
      with_files h (Manager.delete_dir h.files (get path_field r.query))
        λ _ w. (write_json h 200 ok_value, w)

  unfoldable pub rename_dir : Request → World → Response × World
  rename_dir r = with_fields h (decode_json h (from_field ∷ to_field ∷ []) r) λ req.
      with_files h (Manager.rename_dir h.files (req from_field) (req to_field))
        λ _ w. (write_json h 200 (path_value (or_empty (resolve h.files w.fs (req to_field)))), w)
