-- ===== src/Api/Handler.antt =====
-- `Handler` and the helpers of internal/api/api.go: what the endpoints share. A request has its
-- clock readings and random bytes with it. Log lines are left out.
use mdtree.Prelude.{
  ℕ, Bytes, bytes, bytes_eq, Bool, List, [], ◌∷◌, Option, none, some, take, if◌then◌else◌,
}
use mdtree.Result.{Result, ok, err}
use mdtree.Text.{CaseTable}
use mdtree.Text.HostPort.{split_host}
use mdtree.Fs.Node.{Fs}
use mdtree.Files.Error.{
  Error, invalid_path, outside_root, not_markdown, not_found, exists, too_large, is_dir, not_dir,
  not_empty, os_error,
}
use mdtree.Files.Op.{Op}
use mdtree.Files.Resolver.{Resolver}
use mdtree.Files.Manager.{FileInfo, FileContent}
use mdtree.Files.Lister.{Lister, Listing}
use mdtree.Search.Index.{Index, Stats}
use mdtree.Search.Build.{Found}
use mdtree.Search.Query.{Hit}
use mdtree.Auth.Token.{Bcrypt}
use mdtree.Auth.RateLimiter.{RateLimiter}
use mdtree.Auth.Cookie.{Authenticator, Cookies}
use mdtree.Auth.Middleware.{Response}
use mdtree.Metrics.{Metrics, Snapshot}
use mdtree.Api.Login.{Times}

-- What is encoded as a body. Durations are in microseconds.
pub data Value : Type 0 where
  error_value : Bytes → Value
  ok_value : Value
  path_value : Bytes → Value
  authenticated_value : Bool → Value
  listing_value : Listing → Value
  content_value : FileContent → Value
  info_value : FileInfo → Value
  results_value : Bytes → ℕ → List Hit → Value
  reindex_value : ℕ → ℕ → Value
  stats_value : Snapshot → Stats → ℕ → Value

-- The dependencies that stay as they are, with the parameters of the model: `encode` is the JSON
-- encoder; `decode` decodes an object with the given fields and no others, a missing field empty;
-- `found` is what filepath.WalkDir finds below a root.
pub record Handler : Type 0 where
  pub cases : CaseTable
  pub files : Resolver
  pub lister : Lister
  pub auth : Authenticator
  pub bcrypt : Bcrypt
  pub password_hash : Bytes
  pub root : Bytes
  pub encode : Value → Bytes
  pub decode : List Bytes → Bytes → Option (Bytes → Bytes)
  pub found : Fs → Bytes → Found

-- The rest of what the server holds, but for the sessions.
pub record World : Type 0 where
  pub fs : Fs
  pub index : Index
  pub metrics : Metrics
  pub limiter : RateLimiter

-- The clock readings: of `Metrics.Middleware` and of the request log around the handler, of the guard, of a login, of
-- `Build` (its start, its end, the swap), of `SetIndex`, and of `Snapshot`.
pub record Clock : Type 0 where
  pub started : ℕ
  pub ended : ℕ
  pub log_started : ℕ
  pub log_ended : ℕ
  pub guarded : ℕ
  pub login : Times
  pub build_start : ℕ
  pub build_end : ℕ
  pub swapped : ℕ
  pub set : ℕ
  pub snapshot : ℕ

-- The query's pairs are decoded.
pub record Request : Type 0 where
  pub method : Bytes
  pub path : Bytes
  pub query : List (Bytes × Bytes)
  pub body : Bytes
  pub cookies : Cookies
  pub remote_addr : Bytes
  pub clock : Clock
  pub random : Option Bytes

-- `r.URL.Query().Get(key)`.
abbrev pub get : Bytes → List (Bytes × Bytes) → Bytes
get key [] = []
get key ((k, v) ∷ q) = if bytes_eq k key then v else get key q

abbrev pub json_type : Bytes
json_type = bytes "application/json; charset=utf-8"

-- 2 * MaxFileSize + 1 MiB.
abbrev pub max_request_body : ℕ
max_request_body = 22020096

abbrev or_all : Bytes → Option Bytes → Bytes
or_all s none = s
or_all s (some host) = host

unfoldable pub client_ip : Request → Bytes
client_ip r = or_all r.remote_addr (split_host r.remote_addr)

-- The message of the answer: `err.Error()` of the declared errors.
abbrev pub message : Error → Bytes
message invalid_path = bytes "invalid path"
message outside_root = bytes "path is outside the configured root"
message not_markdown = bytes "not a markdown file"
message not_found = bytes "not found"
message exists = bytes "already exists"
message too_large = bytes "file is too large"
message is_dir = bytes "path is a directory"
message not_dir = bytes "path is not a directory"
message not_empty = bytes "directory is not empty"
message (os_error e) = bytes "internal error"

abbrev pub status_of : Error → ℕ
status_of invalid_path = 400
status_of not_markdown = 400
status_of not_dir = 400
status_of is_dir = 400
status_of not_empty = 400
status_of outside_root = 403
status_of not_found = 404
status_of exists = 409
status_of too_large = 413
status_of (os_error e) = 500

module _ (h : Handler) where
  unfoldable pub write_json : ℕ → Value → Response
  write_json status v = record { status = status; content_type = json_type; body = h.encode v }

  unfoldable pub write_error : ℕ → Bytes → Response
  write_error status msg = write_json status (error_value msg)

  unfoldable pub write_file_error : Error → Response
  write_file_error e = write_error (status_of e) (message e)

  -- The decoder sees the body up to the cap; an object that ends before it decodes all the same.
  unfoldable pub decode_json : List Bytes → Request → Option (Bytes → Bytes)
  decode_json fields r = h.decode fields (take max_request_body r.body)

  -- `if !decodeJSON(w, r, &req) { return }`.
  abbrev pub with_fields :
      Option (Bytes → Bytes)
      → ((Bytes → Bytes) → World → Response × World)
      → World
      → Response × World
  with_fields none k w = (write_error 400 (bytes "invalid request body"), w)
  with_fields (some req) k w = k req w

  -- `if err != nil { writeFileError(w, err); return }`.
  abbrev pub or_file_error :
      {A : Type 0} → Result Error A → (A → World → Response × World) → World → Response × World
  or_file_error (ok a) k w = k a w
  or_file_error (err e) k w = (write_file_error e, w)

  -- A call of the file manager whose error is answered.
  unfoldable pub with_files :
      {A : Type 0} → Op A → (A → World → Response × World) → World → Response × World
  with_files op k w = let (r, fs') = op w.fs in or_file_error r k (record w { fs = fs' })
