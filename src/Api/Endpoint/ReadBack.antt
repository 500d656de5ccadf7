-- ===== src/Api/Endpoint/ReadBack.antt =====
-- A save over the API, followed by a request for the same file.
use mathlib.Core.Path.{subst}
use mdtree.Prelude.{ℕ, Bytes, ◌≡◌, sym, ap, ◌∙◌, Bool, true, [], ◌∷◌, some, ◌<◌}
use mdtree.Result.{ok}
use mdtree.Text.{CaseTable}
use mdtree.FilePath.{is_abs}
use mdtree.Fs.Node.{file, Loc, Fs, node_at}
use mdtree.Fs.Reads.{locate}
use mdtree.Files.Op.{Op}
use mdtree.Files.Resolver.{Resolver, new_resolver, resolve}
use mdtree.Files.Manager.{FileInfo, save, read}
use mdtree.Files.Manager.ReadBack.{save-read}
use mdtree.Auth.Session.{SessionStore}
use mdtree.Auth.Middleware.{Response}
use mdtree.Metrics.{inc_file_write}
use mdtree.Api.Handler.{
  Handler, World, Request, info_value, content_value, get, write_json, decode_json, with_fields,
  with_files, or_file_error,
}
use mdtree.Api.Files
use mdtree.Api.Files.{path_field, content_field}
use mdtree.Api.Endpoint.{endpoint, save_file, get_file}
use mdtree.Api.Endpoint.Outcome.{with_files-ok}

abbrev IsReadBack :
    CaseTable → Bytes → Bytes → Fs → FileInfo → Bytes → Loc → Bytes → ℕ → Resolver → Type 0
IsReadBack u path content fs info abs t c m r =
    resolve r fs path ≡ ok abs
    → locate fs abs ≡ ok t
    → node_at fs t ≡ some (file c m)
    → (save u r path content fs).0 ≡ ok info
    → read u r path (save u r path content fs).1
      ≡ (ok (record { info = info; content = content }), (save u r path content fs).1)

with_files-eq :
    {A : Type 0} (h : Handler) (op : Op A) (k : A → World → Response × World) (w : World) (a : A)
    (fs : Fs)
    → op w.fs ≡ (ok a, fs)
    → with_files h op k w ≡ k a (record w { fs = fs })
unfolding with_files
with_files-eq h op k w a fs q = ap (λ x. or_file_error h x.0 k (record w { fs = x.1 })) q

abbrev saved_answer : Handler → FileInfo → World → Response × World
saved_answer h info w =
    (write_json h 200 (info_value info), record w { metrics = inc_file_write w.metrics })

abbrev save_fields : Handler → (Bytes → Bytes) → World → Response × World
save_fields h req =
    with_files h (save h.cases h.files (req path_field) (req content_field)) (saved_answer h)

-- Where a request to save over a file succeeds, the answer describes the file, and a request for
-- the same path that follows is answered with that description and the content that was saved, and
-- leaves the files as they are; the path must not name a symbolic link, and the root is absolute.
pub save_file-get_file :
    (h : Handler) (root : Bytes) (follow : Bool) (put ask : Request) (s : SessionStore) (w : World)
    (req : Bytes → Bytes) (abs : Bytes) (t : Loc) (c : Bytes) (m : ℕ)
    → h.files ≡ new_resolver root follow
    → is_abs root ≡ true
    → decode_json h (path_field ∷ content_field ∷ []) put ≡ some req
    → get path_field ask.query ≡ req path_field
    → resolve h.files w.fs (req path_field) ≡ ok abs
    → locate w.fs abs ≡ ok t
    → node_at w.fs t ≡ some (file c m)
    → (endpoint h save_file put (s, w)).0.status < 300
    → (info : FileInfo) × ((endpoint h save_file put (s, w)).0 ≡ write_json h 200 (info_value info))
      × ((endpoint h get_file ask (endpoint h save_file put (s, w)).1).0
          ≡ write_json h 200 (content_value (record { info = info; content = req content_field })))
      × ((endpoint h get_file ask (endpoint h save_file put (s, w)).1).1.1.fs
          ≡ (endpoint h save_file put (s, w)).1.1.fs)
unfolding endpoint Files.save_file Files.get_file
save_file-get_file h root follow put ask s w req abs t c m files a decoded same p l q done =
    let e₁ = ap (λ o. with_fields h o (save_fields h) w) decoded in
    let path = req path_field in
    let content = req content_field in
    let (info, saved, e₂, _) =
      with_files-ok h (save h.cases h.files path content) (saved_answer h) w
        (subst (λ x. x.0.status < 300) e₁ done) in
    let e = e₁ ∙ e₂ in
    let back =
      subst (IsReadBack h.cases path content w.fs info abs t c m) (sym files)
        (save-read h.cases root follow path content w.fs info abs t c m a) p l q saved in
    let w' : World = (Files.save_file h put w).1 in
    let fs' : Fs = (save h.cases h.files path content w.fs).1 in
    let here = ap (λ x. x.1.fs) e in
    let there =
      ap (λ x. read h.cases h.files x w'.fs) same ∙ ap (read h.cases h.files path) here ∙ back in
    let asked =
      with_files-eq h (read h.cases h.files (get path_field ask.query)) _ w' _ fs' there in
    (info, ap (λ x. x.0) e, ap (λ x. x.0) asked, ap (λ x. x.1.fs) asked ∙ sym here)
