-- ===== src/Files/Manager/Collision.antt =====
-- A write whose temporary file has the name of the target leaves nothing behind.
use mathlib.Core.Path.{subst}
use mdtree.Prelude.{Bytes, ◌≡◌, inl, inr, sym, ap, ◌∙◌, ◌∷◌, ◌++◌, none}
use mdtree.Result.{ok}
use mdtree.FilePath.{slash, dir}
use mdtree.Fs.Node.{Loc, Fs, node_at}
use mdtree.Fs.Reads.{locate}
use mdtree.Fs.Writes.{temp_name, create_temp, write_string}
use mdtree.Fs.Temp.{create_temp-Made, rename-same, Result-cases}
use mdtree.Fs.Fewer.{value}
use mdtree.Files.Manager.{fill_temp, write_file_atomic}
use mdtree.Files.Manager.Atomic.{ok≢err, after_create, fill_temp-ok, not_made}
use mdtree.Files.Manager.Staged.{Staged, located_in, write-Staged, remove-Staged}

pub write_file_atomic-same :
    (path content : Bytes) (fs : Fs) (t : Loc)
    → locate fs path ≡ ok t
    → locate fs (dir path ++ (slash ∷ temp_name fs.temp_suffix)) ≡ ok t
    → (write_file_atomic path content fs).0 ≡ ok tt
    → (node_at fs t ≡ none)
      × ((k : Loc) → node_at (write_file_atomic path content fs).1 k ≡ node_at fs k)
write_file_atomic-same path content fs t at same q =
    elim (Result-cases (create_temp (dir path) fs).0) [
      | inr (e, made) ↦ absurd (ok≢err (sym q ∙ not_made path content fs e made))
      | inl (tmp, made) ↦
          let m = create_temp-Made (dir path) fs tmp made in
          let fs' : Fs = (create_temp (dir path) fs).1 in
          let whole = after_create path content tmp fs made in
          let (c, s, _) = write-Staged content tmp m.l fs fs' m.result m.here m.free in
          let (_, _, moved) = fill_temp-ok tmp path content fs' (sym (ap (λ x. x.0) whole) ∙ q) in
          let full : Fs = (write_string tmp content fs').1 in
          let place = ap (value t) (sym same ∙ ap (locate fs) (sym m.named) ∙ m.here) in
          let here = located_in fs full m.l tmp m.l m.here m.free s.others in
          let there = located_in fs full m.l path m.l (at ∙ ap ok place) m.free s.others in
          let stays = moved ∙ rename-same tmp path full m.l c fs.now here there s.holds in
          (
            ap (node_at fs) place ∙ m.free,
            λ k.
                ap (λ x. node_at x.1 k) whole
                ∙ remove-Staged tmp c m.l fs (fill_temp tmp path content fs').1 m.here m.free
                    (subst (Staged fs m.l c) (sym stays) s) k,
          )
    ]
