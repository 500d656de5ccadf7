-- ===== src/Api/Endpoint/Kept.antt =====
-- What no endpoint changes, whatever it answers: the index stays well-formed and at its root, and
-- the requests are counted elsewhere.
use mdtree.Prelude.{ℕ, arith, Bytes, ◌≡◌, refl, Option, none, some}
use mdtree.Result.{Result, ok, err}
use mdtree.Text.{CaseTable}
use mdtree.Files.Error.{Error}
use mdtree.Files.Op.{Op}
use mdtree.Search.Index.{Index}
use mdtree.Search.Index
use mdtree.Search.Build.{Found, build}
use mdtree.Search.Build.Visible.{build-IsWellFormed}
use mdtree.Search.Index.Updates.{
  IsWellFormed, Update, update, added, renamed, removed, update-IsWellFormed,
}
use mdtree.Auth.Session.{SessionStore}
use mdtree.Auth.Middleware.{Response}
use mdtree.Metrics.{inc_file_read, inc_file_write, inc_search, set_index}
use mdtree.Api.Handler.{Handler, World, Request, with_fields, or_file_error, with_files}
use mdtree.Api.Files
use mdtree.Api.Search
use mdtree.Api.Endpoint.{
  Endpoint, endpoint, tree, get_file, create_file, save_file, delete_file, rename_file, mkdir,
  delete_dir, rename_dir, search, reindex, stats,
}

-- From one index to the next.
abbrev pub Settled : CaseTable → Index → Index → Type 0
Settled u idx idx' =
    (IsWellFormed u idx.docs → IsWellFormed u idx'.docs)
    × (idx'.root ≡ idx.root)
    × (idx'.max_files ≡ idx.max_files)

abbrev pub Kept : CaseTable → World → World → Type 0
Kept u w w' = Settled u w.index w'.index × (w'.metrics.requests ≡ w.metrics.requests)

pub unchanged : (u : CaseTable) (w : World) → Kept u w w
unchanged u w = ((λ i. i, refl, refl), refl)

Keeps : CaseTable → (World → Response × World) → Type 0
Keeps u k = (w : World) → Kept u w (k w).1

with_files-Keeps :
    {A : Type 0} (h : Handler) (op : Op A) (k : A → World → Response × World)
    → ((a : A) → Keeps h.cases (k a))
    → Keeps h.cases (with_files h op k)
unfolding with_files Keeps
with_files-Keeps {A} h op k d w = go (op w.fs).0
  where
    go :
        (r : Result Error A)
        → Kept h.cases w (or_file_error h r k (record w { fs = (op w.fs).1 })).1
    go (ok a) = d a (record w { fs = (op w.fs).1 })
    go (err e) = unchanged h.cases w

with_fields-Keeps :
    (h : Handler) (o : Option (Bytes → Bytes)) (k : (Bytes → Bytes) → World → Response × World)
    → ((req : Bytes → Bytes) → Keeps h.cases (k req))
    → Keeps h.cases (with_fields h o k)
unfolding Keeps
with_fields-Keeps h none k d w = unchanged h.cases w
with_fields-Keeps h (some req) k d w = d req w

update-Settled : (u : CaseTable) (e : Update) (idx : Index) → Settled u idx (update u e idx)
unfolding Index.add Index.rename Index.remove
update-Settled u (added p) idx = (update-IsWellFormed u (added p) idx, ground arith, ground arith)
update-Settled u (renamed a b) idx =
    (update-IsWellFormed u (renamed a b) idx, ground arith, ground arith)
update-Settled u (removed p) idx = (update-IsWellFormed u (removed p) idx, refl, refl)

pub build-Settled :
    (u : CaseTable) (idx : Index) (t : Found) (start ended swapped : ℕ)
    → Settled u idx (build u idx t start ended swapped).2
unfolding build
build-Settled u idx t start ended swapped =
    (λ i. (build-IsWellFormed u idx t start ended swapped).0, refl, refl)

module _ (h : Handler) (r : Request) where
  tree-Keeps : Keeps h.cases (Files.tree h r)
  unfolding Files.tree Keeps
  tree-Keeps = with_files-Keeps h _ _ (λ a w. unchanged h.cases w)

  get_file-Keeps : Keeps h.cases (Files.get_file h r)
  unfolding Files.get_file Keeps inc_file_read
  get_file-Keeps = with_files-Keeps h _ _ (λ a w. ((λ i. i, refl, refl), refl))

  save_file-Keeps : Keeps h.cases (Files.save_file h r)
  unfolding Files.save_file Keeps inc_file_write
  save_file-Keeps =
      with_fields-Keeps h _ _ (λ req. with_files-Keeps h _ _ (λ a w. ((λ i. i, refl, refl), refl)))

  create_file-Keeps : Keeps h.cases (Files.create_file h r)
  unfolding Files.create_file Keeps inc_file_write
  create_file-Keeps =
      with_fields-Keeps h _ _ (λ req.
        with_files-Keeps h _ _ (λ a w. (update-Settled h.cases (added a.path) w.index, refl)))

  delete_file-Keeps : Keeps h.cases (Files.delete_file h r)
  unfolding Files.delete_file Keeps
  delete_file-Keeps =
      with_files-Keeps h _ _
        (λ a. with_files-Keeps h _ _ (λ c w. (update-Settled h.cases (removed a) w.index, refl)))

  rename_file-Keeps : Keeps h.cases (Files.rename_file h r)
  unfolding Files.rename_file Keeps
  rename_file-Keeps = with_fields-Keeps h _ _ (λ req. with_files-Keeps h _ _ (λ a.
      with_files-Keeps h _ _ (λ b w. (update-Settled h.cases (renamed a b.path) w.index, refl))))

  mkdir-Keeps : Keeps h.cases (Files.mkdir h r)
  unfolding Files.mkdir Keeps
  mkdir-Keeps = with_fields-Keeps h _ _ (λ req. with_files-Keeps h _ _ (λ a w. unchanged h.cases w))

  delete_dir-Keeps : Keeps h.cases (Files.delete_dir h r)
  unfolding Files.delete_dir Keeps
  delete_dir-Keeps = with_files-Keeps h _ _ (λ a w. unchanged h.cases w)

  rename_dir-Keeps : Keeps h.cases (Files.rename_dir h r)
  unfolding Files.rename_dir Keeps
  rename_dir-Keeps =
      with_fields-Keeps h _ _ (λ req. with_files-Keeps h _ _ (λ a w. unchanged h.cases w))

-- Any endpoint, whatever it answers, keeps the sessions, and what it does to the index keeps that in
-- order.
pub endpoint-Kept :
    (h : Handler) (e : Endpoint) (r : Request) (s : SessionStore) (w : World)
    → ((endpoint h e r (s, w)).1.0 ≡ s) × Kept h.cases w (endpoint h e r (s, w)).1.1
unfolding endpoint Keeps Search.search Search.reindex Search.stats_of inc_search set_index
endpoint-Kept h tree r s w = (refl, tree-Keeps h r w)
endpoint-Kept h get_file r s w = (refl, get_file-Keeps h r w)
endpoint-Kept h create_file r s w = (refl, create_file-Keeps h r w)
endpoint-Kept h save_file r s w = (refl, save_file-Keeps h r w)
endpoint-Kept h delete_file r s w = (refl, delete_file-Keeps h r w)
endpoint-Kept h rename_file r s w = (refl, rename_file-Keeps h r w)
endpoint-Kept h mkdir r s w = (refl, mkdir-Keeps h r w)
endpoint-Kept h delete_dir r s w = (refl, delete_dir-Keeps h r w)
endpoint-Kept h rename_dir r s w = (refl, rename_dir-Keeps h r w)
endpoint-Kept h search r s w = (refl, ((λ i. i, refl, refl), refl))
endpoint-Kept h reindex r s w = (refl, (build-Settled h.cases w.index _ _ _ _, refl))
endpoint-Kept h stats r s w = (refl, unchanged h.cases w)
