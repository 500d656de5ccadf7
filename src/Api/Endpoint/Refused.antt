-- ===== src/Api/Endpoint/Refused.antt =====
-- What a request changes that is answered with a status between 400 and 499.
use mdtree.Prelude.{◌≤◌, ◌<◌, Bytes, ◌≡◌, ◌∙◌, refl, sym, ap, true, Option, none, some, arith}
use mdtree.Result.{Result, ok, err}
use mdtree.Fs.Node.{Fs}
use mdtree.Files.Error.{Error}
use mdtree.Files.Op.{Op, gets}
use mdtree.Files.Manager.Refusal.{
  is_sentinel, Refuses, looks, tests, save-Refuses, create-Refuses, delete-Refuses, rename-Refuses,
  mkdir-Refuses, delete_dir-Refuses, rename_dir-Refuses,
}
use mdtree.Files.Manager.{read, resolve_path}
use mdtree.Files.Lister.{Lister, list}
use mdtree.Files.Resolver.{Resolver}
use mdtree.Text.{CaseTable}
use mdtree.Api.Files
use mdtree.Api.Search
use mdtree.Auth.Session.{SessionStore}
use mdtree.Auth.Middleware.{Response}
use mdtree.Api.Handler.{
  Handler, World, Request, status_of, write_json, write_error, write_file_error, with_fields,
  or_file_error, with_files,
}
use mdtree.Api.Endpoint.{
  endpoint, Endpoint, tree, get_file, create_file, save_file, delete_file, rename_file, mkdir,
  delete_dir, rename_dir, search, reindex, stats,
}

-- A handler that leaves the state alone when it refuses.
IsCautious : (World → Response × World) → Type 0
IsCautious k = (w : World) → 400 ≤ (k w).0.status → (k w).0.status < 500 → (k w).1 ≡ w

-- A continuation that never refuses.
abbrev IsDone : {A : Type 0} → (A → World → Response × World) → Type 0
IsDone {A} k = (a : A) (w : World) → (k a w).0.status < 400

is_sentinel_status : (e : Error) → status_of e < 500 → is_sentinel e ≡ true
is_sentinel_status e h = ground arith

module _ (h : Handler) where
  write_file_error-status : (e : Error) → (write_file_error h e).status ≡ status_of e
  unfolding write_file_error write_error write_json
  write_file_error-status e = refl

  -- The last call of a handler.
  with_files-last :
      {A : Type 0} (op : Op A) (k : A → World → Response × World)
      → Refuses op
      → IsDone k
      → IsCautious (with_files h op k)
  unfolding IsCautious Refuses with_files
  with_files-last {A} op k f d w lo hi = go (op w.fs).0 (op w.fs).1 refl refl lo hi
    where
      go :
          (r : Result Error A) (fs : Fs)
          → (op w.fs).0 ≡ r
          → (op w.fs).1 ≡ fs
          → 400 ≤ (or_file_error h r k (record w { fs = fs })).0.status
          → (or_file_error h r k (record w { fs = fs })).0.status < 500
          → (or_file_error h r k (record w { fs = fs })).1 ≡ w
      go (ok a) fs p q lo hi = absurd (omega (arith, d a (record w { fs = fs }), lo))
      go (err e) fs p q lo hi =
          ap (λ fs. record w { fs = fs })
            (sym q ∙ f w.fs e p (is_sentinel_status e (rw (← write_file_error-status e) hi)))

  -- A call before the last, which only reads.
  with_files-first :
      {A : Type 0} (f : Fs → Result Error A) (k : A → World → Response × World)
      → ((a : A) → IsCautious (k a))
      → IsCautious (with_files h (gets f) k)
  unfolding IsCautious with_files gets
  with_files-first {A} f k d w lo hi = go (f w.fs) lo hi
    where
      go :
          (r : Result Error A)
          → 400 ≤ (or_file_error h r k w).0.status
          → (or_file_error h r k w).0.status < 500
          → (or_file_error h r k w).1 ≡ w
      go (ok a) lo hi = d a w lo hi
      go (err e) lo hi = refl

  with_fields-IsCautious :
      (o : Option (Bytes → Bytes)) (k : (Bytes → Bytes) → World → Response × World)
      → ((req : Bytes → Bytes) → IsCautious (k req))
      → IsCautious (with_fields h o k)
  unfolding IsCautious
  with_fields-IsCautious none k d w lo hi = refl
  with_fields-IsCautious (some req) k d w lo hi = d req w lo hi

Refuses-gets : {A : Type 0} (f : Fs → Result Error A) → Refuses (gets f)
unfolding Refuses gets
Refuses-gets f fs e q s = refl

list-Refuses : (u : CaseTable) (l : Lister) (p : Bytes) → Refuses (list u l p)
unfolding list
list-Refuses u l p =
    looks _ _ (λ abs. looks _ _ (λ n. tests _ _ _ (looks _ _ (λ des. Refuses-gets _))))

read-Refuses : (u : CaseTable) (r : Resolver) (p : Bytes) → Refuses (read u r p)
unfolding read resolve_path
read-Refuses u r p = looks _ _ (λ abs.
    tests _ _ _ (looks _ _ (λ n. tests _ _ _ (tests _ _ _ (looks _ _ (λ b. Refuses-gets _))))))

module _ (h : Handler) (r : Request) where
  tree-IsCautious : IsCautious (Files.tree h r)
  unfolding Files.tree write_json
  tree-IsCautious = with_files-last h _ _ (list-Refuses _ _ _) (λ a w. omega arith)

  get_file-IsCautious : IsCautious (Files.get_file h r)
  unfolding Files.get_file write_json
  get_file-IsCautious = with_files-last h _ _ (read-Refuses _ _ _) (λ a w. omega arith)

  save_file-IsCautious : IsCautious (Files.save_file h r)
  unfolding Files.save_file write_json
  save_file-IsCautious =
      with_fields-IsCautious h _ _
        (λ req. with_files-last h _ _ (save-Refuses _ _ _ _) (λ a w. omega arith))

  create_file-IsCautious : IsCautious (Files.create_file h r)
  unfolding Files.create_file write_json
  create_file-IsCautious =
      with_fields-IsCautious h _ _
        (λ req. with_files-last h _ _ (create-Refuses _ _ _ _) (λ a w. omega arith))

  delete_file-IsCautious : IsCautious (Files.delete_file h r)
  unfolding Files.delete_file write_json resolve_path
  delete_file-IsCautious =
      with_files-first h _ _
        (λ abs. with_files-last h _ _ (delete-Refuses _ _ _) (λ a w. omega arith))

  rename_file-IsCautious : IsCautious (Files.rename_file h r)
  unfolding Files.rename_file write_json resolve_path
  rename_file-IsCautious = with_fields-IsCautious h _ _ (λ req.
      with_files-first h _ _
        (λ abs. with_files-last h _ _ (rename-Refuses _ _ _ _) (λ a w. omega arith)))

  mkdir-IsCautious : IsCautious (Files.mkdir h r)
  unfolding Files.mkdir write_json
  mkdir-IsCautious =
      with_fields-IsCautious h _ _
        (λ req. with_files-last h _ _ (mkdir-Refuses _ _) (λ a w. omega arith))

  delete_dir-IsCautious : IsCautious (Files.delete_dir h r)
  unfolding Files.delete_dir write_json
  delete_dir-IsCautious = with_files-last h _ _ (delete_dir-Refuses _ _) (λ a w. omega arith)

  rename_dir-IsCautious : IsCautious (Files.rename_dir h r)
  unfolding Files.rename_dir write_json
  rename_dir-IsCautious =
      with_fields-IsCautious h _ _
        (λ req. with_files-last h _ _ (rename_dir-Refuses _ _ _) (λ a w. omega arith))

  search-IsCautious : IsCautious (Search.search h r)
  unfolding IsCautious Search.search write_json
  search-IsCautious w lo hi = absurd (omega (arith, lo))

  reindex-IsCautious : IsCautious (Search.reindex h r)
  unfolding IsCautious Search.reindex write_json
  reindex-IsCautious w lo hi = absurd (omega (arith, lo))

-- A handler behind the guard that answers with a status from 400 to 499 has itself changed nothing:
-- no file, no entry of the index, no session, and no counter of what the handlers did. The guard's
-- check before it and the count of requests around it are not part of the handler.
pub endpoint-refused :
    (h : Handler) (e : Endpoint) (r : Request) (s : SessionStore) (w : World)
    → 400 ≤ (endpoint h e r (s, w)).0.status
    → (endpoint h e r (s, w)).0.status < 500
    → (endpoint h e r (s, w)).1 ≡ (s, w)
unfolding endpoint IsCautious Search.stats_of
endpoint-refused h tree r s w lo hi = ap (λ w. (s, w)) (tree-IsCautious h r w lo hi)
endpoint-refused h get_file r s w lo hi = ap (λ w. (s, w)) (get_file-IsCautious h r w lo hi)
endpoint-refused h create_file r s w lo hi = ap (λ w. (s, w)) (create_file-IsCautious h r w lo hi)
endpoint-refused h save_file r s w lo hi = ap (λ w. (s, w)) (save_file-IsCautious h r w lo hi)
endpoint-refused h delete_file r s w lo hi = ap (λ w. (s, w)) (delete_file-IsCautious h r w lo hi)
endpoint-refused h rename_file r s w lo hi = ap (λ w. (s, w)) (rename_file-IsCautious h r w lo hi)
endpoint-refused h mkdir r s w lo hi = ap (λ w. (s, w)) (mkdir-IsCautious h r w lo hi)
endpoint-refused h delete_dir r s w lo hi = ap (λ w. (s, w)) (delete_dir-IsCautious h r w lo hi)
endpoint-refused h rename_dir r s w lo hi = ap (λ w. (s, w)) (rename_dir-IsCautious h r w lo hi)
endpoint-refused h search r s w lo hi = ap (λ w. (s, w)) (search-IsCautious h r w lo hi)
endpoint-refused h reindex r s w lo hi = ap (λ w. (s, w)) (reindex-IsCautious h r w lo hi)
endpoint-refused h stats r s w lo hi = refl
