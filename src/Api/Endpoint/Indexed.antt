-- ===== src/Api/Endpoint/Indexed.antt =====
-- What a request that succeeds does to the index.
use mathlib.Core.Path.{subst}
use mdtree.Prelude.{◌<◌, Bytes, ◌≡◌, ◌∙◌, refl, sym, ap, Bool, true, false, [], ◌∷◌, some, length}
use mdtree.Prelude.Assoc
use mdtree.Prelude.Assoc.{lookup-insert, lookup-erase}
use mdtree.Result.{Result, ok}
use mdtree.Text.{CaseTable}
use mdtree.Fs.Node.{Fs}
use mdtree.Files.Error.{Error}
use mdtree.Files.Op.{gets}
use mdtree.Files.Op.Inversion.{value}
use mdtree.Files.Resolver.{resolve}
use mdtree.Files.Manager.{FileInfo, resolve_path, file_info_of}
use mdtree.Files.Manager.Made.{Made, create-Made, rename-Made}
use mdtree.Files.Manager.Removed.{Removed, delete-Removed}
use mdtree.Search.Index.{Index}
use mdtree.Search.Index
use mdtree.Search.Index.Updates.{is_there}
use mdtree.Search.Index.Listed.{added_there, removed_gone, renamed_there, renamed_gone}
use mdtree.Search.Build.{build}
use mdtree.Auth.Session.{SessionStore}
use mdtree.Auth.Middleware.{Response}
use mdtree.Metrics.{set_index}
use mdtree.Api.Handler.{Handler, World, Request, get, decode_json}
use mdtree.Api.Endpoint.Outcome.{
  with_files-ok, with_fields-ok, KeepsIndex, with_files-KeepsIndex, with_fields-KeepsIndex,
}
use mdtree.Api.Files
use mdtree.Api.Files.{path_field, content_field, from_field, to_field}
use mdtree.Api.Search
use mdtree.Api.Endpoint.{
  Endpoint, endpoint, tree, get_file, create_file, save_file, delete_file, rename_file, mkdir,
  delete_dir, rename_dir, search, reindex, stats,
}

-- Whether the index has a document for the path.
abbrev pub is_listed : Bytes → World → Bool
is_listed abs w = is_there (Assoc.lookup abs w.index.docs)

-- The files and the index after a request that succeeds: a file that was made is at its resolved
-- path and listed, one that was deleted is neither, one that was renamed is listed under its new
-- path alone; a rebuilt index holds as many documents as the statistics say; all else leaves the
-- index as it was.
abbrev pub IndexFollows : Handler → Endpoint → Request → World → World → Type 0
IndexFollows h create_file r w w' =
    (req : Bytes → Bytes) × (abs : Bytes) × (info : FileInfo) × (decode_json h
        (path_field ∷ content_field ∷ []) r
      ≡ some req)
    × (resolve h.files w.fs (req path_field) ≡ ok abs)
    × Made h.cases abs w'.fs info
    × (is_listed abs w' ≡ true)
IndexFollows h delete_file r w w' =
    (abs : Bytes) × (resolve h.files w.fs (get path_field r.query) ≡ ok abs)
    × Removed h.files (get path_field r.query) false w.fs w'.fs
    × (is_listed abs w' ≡ false)
IndexFollows h rename_file r w w' =
    (req : Bytes → Bytes) × (a : Bytes) × (b : Bytes) × (info : FileInfo) × (decode_json h
        (from_field ∷ to_field ∷ []) r
      ≡ some req)
    × (resolve h.files w.fs (req from_field) ≡ ok a)
    × (resolve h.files w.fs (req to_field) ≡ ok b)
    × Made h.cases b w'.fs info
    × (is_listed a w' ≡ false)
    × (is_listed b w' ≡ true)
IndexFollows h reindex r w w' = (w'.fs ≡ w.fs) × (w'.metrics.indexed_files ≡ length w'.index.docs)
IndexFollows h e r w w' = w'.index ≡ w.index

path_of :
    {u : CaseTable} {abs : Bytes} {fs : Fs} {info : FileInfo} → Made u abs fs info → info.path ≡ abs
unfolding file_info_of
path_of m = ap (λ x. x.path) m.answer

ok-eq : (a b : Bytes) (r : Result Error Bytes) → r ≡ ok a → r ≡ ok b → a ≡ b
ok-eq a b r p q = ap (value a) (sym p ∙ q)

module _ (h : Handler) (r : Request) (w : World) where
  abbrev Follows : Endpoint → (Request → World → Response × World) → Type 0
  Follows e f = (f r w).0.status < 300 → IndexFollows h e r w (f r w).1

  create_file-Follows : Follows create_file (Files.create_file h)
  unfolding Files.create_file
  create_file-Follows q =
      let (req, decoded, e₁, q₁) = with_fields-ok h _ _ w q in
      let (info, made, e₂, q₂) = with_files-ok h _ _ w q₁ in
      let (abs, resolved, m) = create-Made h.cases h.files _ _ w.fs info made in
      let e = ap (λ x. x.1) (e₁ ∙ e₂) in
      (
        req,
        abs,
        info,
        decoded,
        resolved,
        subst (λ x. Made h.cases abs x info) (sym (ap (λ x. x.fs) e)) m,
        ap (is_listed abs) e
            ∙ ap (λ x. is_there (Assoc.lookup abs (Index.add h.cases x w.index).docs)) (path_of m)
            ∙ added_there h.cases abs w.index m.markdown,
      )

  delete_file-Follows : Follows delete_file (Files.delete_file h)
  unfolding Files.delete_file resolve_path gets
  delete_file-Follows q =
      let (abs, resolved, e₁, q₁) = with_files-ok h _ _ w q in
      let (_, deleted, e₂, q₂) = with_files-ok h _ _ w q₁ in
      let (_, _, _, m) = delete-Removed h.cases h.files _ w.fs deleted in
      let e = ap (λ x. x.1) (e₁ ∙ e₂) in
      (
        abs,
        resolved,
        subst (λ x. Removed h.files (get path_field r.query) false w.fs x) (sym (ap (λ x. x.fs) e))
            m,
        ap (is_listed abs) e ∙ removed_gone abs w.index,
      )

  rename_file-Follows : Follows rename_file (Files.rename_file h)
  unfolding Files.rename_file resolve_path gets
  rename_file-Follows q =
      let (req, decoded, e₁, q₁) = with_fields-ok h _ _ w q in
      let (a, resolved, e₂, q₂) = with_files-ok h _ _ w q₁ in
      let (info, renamed, e₃, q₃) = with_files-ok h _ _ w q₂ in
      let (a', b, ra, rb, differ, m) = rename-Made h.cases h.files _ _ w.fs info renamed in
      let same = ok-eq a a' _ resolved ra in
      let e = ap (λ x. x.1) (e₁ ∙ e₂ ∙ e₃) in
      (
        req,
        a,
        b,
        info,
        decoded,
        resolved,
        rb,
        subst (λ x. Made h.cases b x info) (sym (ap (λ x. x.fs) e)) m,
        ap (is_listed a) e
            ∙ ap (λ x. is_there (Assoc.lookup a (Index.rename h.cases a x w.index).docs))
                (path_of m)
            ∙ renamed_gone h.cases a b w.index (λ p. differ (sym same ∙ p)) m.markdown,
        ap (is_listed b) e
            ∙ ap (λ x. is_there (Assoc.lookup b (Index.rename h.cases a x w.index).docs))
                (path_of m)
            ∙ renamed_there h.cases a b w.index m.markdown,
      )

tree-KeepsIndex : (h : Handler) (r : Request) → KeepsIndex (Files.tree h r)
unfolding Files.tree KeepsIndex
tree-KeepsIndex h r = with_files-KeepsIndex h _ _ (λ a w. refl)

get_file-KeepsIndex : (h : Handler) (r : Request) → KeepsIndex (Files.get_file h r)
unfolding Files.get_file KeepsIndex
get_file-KeepsIndex h r = with_files-KeepsIndex h _ _ (λ a w. refl)

save_file-KeepsIndex : (h : Handler) (r : Request) → KeepsIndex (Files.save_file h r)
unfolding Files.save_file KeepsIndex
save_file-KeepsIndex h r =
    with_fields-KeepsIndex h _ _ (λ req. with_files-KeepsIndex h _ _ (λ a w. refl))

mkdir-KeepsIndex : (h : Handler) (r : Request) → KeepsIndex (Files.mkdir h r)
unfolding Files.mkdir KeepsIndex
mkdir-KeepsIndex h r =
    with_fields-KeepsIndex h _ _ (λ req. with_files-KeepsIndex h _ _ (λ a w. refl))

delete_dir-KeepsIndex : (h : Handler) (r : Request) → KeepsIndex (Files.delete_dir h r)
unfolding Files.delete_dir KeepsIndex
delete_dir-KeepsIndex h r = with_files-KeepsIndex h _ _ (λ a w. refl)

rename_dir-KeepsIndex : (h : Handler) (r : Request) → KeepsIndex (Files.rename_dir h r)
unfolding Files.rename_dir KeepsIndex
rename_dir-KeepsIndex h r =
    with_fields-KeepsIndex h _ _ (λ req. with_files-KeepsIndex h _ _ (λ a w. refl))

-- What a request to an endpoint that succeeds does to the index: a file that was made stands at its
-- resolved path and is listed there, with its name still a markdown file's, one that was deleted is
-- gone from its location and not listed, one that was renamed is listed under its new path, where it
-- stands, and no more under the old one; after a rebuild the statistics count the documents; every
-- other request, also one that renames a directory, leaves the index as it was.
pub endpoint-IndexFollows :
    (h : Handler) (e : Endpoint) (r : Request) (s : SessionStore) (w : World)
    → (endpoint h e r (s, w)).0.status < 300
    → IndexFollows h e r w (endpoint h e r (s, w)).1.1
unfolding endpoint KeepsIndex Search.search Search.reindex Search.stats_of set_index build
endpoint-IndexFollows h create_file r s w q = create_file-Follows h r w q
endpoint-IndexFollows h delete_file r s w q = delete_file-Follows h r w q
endpoint-IndexFollows h rename_file r s w q = rename_file-Follows h r w q
endpoint-IndexFollows h reindex r s w q = (refl, refl)
endpoint-IndexFollows h tree r s w q = tree-KeepsIndex h r w
endpoint-IndexFollows h get_file r s w q = get_file-KeepsIndex h r w
endpoint-IndexFollows h save_file r s w q = save_file-KeepsIndex h r w
endpoint-IndexFollows h mkdir r s w q = mkdir-KeepsIndex h r w
endpoint-IndexFollows h delete_dir r s w q = delete_dir-KeepsIndex h r w
endpoint-IndexFollows h rename_dir r s w q = rename_dir-KeepsIndex h r w
endpoint-IndexFollows h search r s w q = refl
endpoint-IndexFollows h stats r s w q = refl
