-- ===== src/Files/Manager/Atomic.antt =====
-- `writeFileAtomic`: a file is replaced whole, or nothing is changed.
use mathlib.Core.Logic.{ite}
use mathlib.Core.Path.{subst}
use mdtree.Prelude.{none, Bytes, ◌≡◌, ◌≢◌, inl, inr, sym, ap, ◌∙◌, ◌∷◌, ◌++◌, some, arith}
use mdtree.Result.{ok, err}
use mdtree.FilePath.{slash, dir}
use mdtree.Fs.Node.{Errno, file, Loc, loc_discrete, Fs, node_at, put, delete}
use mdtree.Fs.Reads.{locate}
use mdtree.Fs.Writes.{temp_name, create_temp, write_string}
use mdtree.Fs.Writes
use mdtree.Fs.Temp.{
  create_temp-Made, create_temp-err, rename-err, rename-file, rename-top, rename-located, top_taken,
  Result-cases,
}
use mdtree.Files.Manager.{fill_temp, write_file_atomic}
use mdtree.Fs.Fewer.{locate-Fewer, value}
use mdtree.Files.Manager.Staged.{
  Staged-Fewer, Staged, located_in, write-Staged, remove-Staged, moved_nodes, remove_moved,
}

pub ok≢err : {a : Unit {0}} {e : Errno} → ok a ≢ err e
ok≢err q = cc

fill_temp-err :
    (tmp path content : Bytes) (fs : Fs) (e : Errno)
    → (fill_temp tmp path content fs).0 ≡ err e
    → (fill_temp tmp path content fs).1 ≡ (write_string tmp content fs).1
unfolding fill_temp
fill_temp-err tmp path content fs e q =
    ground (arith, rename-err tmp path (write_string tmp content fs).1 e)

pub after_create :
    (path content tmp : Bytes) (fs : Fs)
    → (create_temp (dir path) fs).0 ≡ ok tmp
    → write_file_atomic path content fs ≡ (
      (fill_temp tmp path content (create_temp (dir path) fs).1).0,
      (Writes.remove tmp (fill_temp tmp path content (create_temp (dir path) fs).1).1).1,
    )
unfolding write_file_atomic
after_create path content tmp fs q = ground arith

no_temp :
    (path content : Bytes) (fs : Fs) (e : Errno)
    → (create_temp (dir path) fs).0 ≡ err e
    → (write_file_atomic path content fs).1 ≡ fs
unfolding write_file_atomic
no_temp path content fs e q = ground (arith, create_temp-err (dir path) fs e q)

-- If writing a file fails, at whatever step and for whatever reason, every location holds what it
-- held before, and no temporary file is left.
pub write_file_atomic-err :
    (path content : Bytes) (fs : Fs) (e : Errno) (k : Loc)
    → (write_file_atomic path content fs).0 ≡ err e
    → node_at (write_file_atomic path content fs).1 k ≡ node_at fs k
write_file_atomic-err path content fs e k q = elim (Result-cases (create_temp (dir path) fs).0) [
  | inr (c, made) ↦ ap (λ x. node_at x k) (no_temp path content fs c made)
  | inl (tmp, made) ↦
      let m = create_temp-Made (dir path) fs tmp made in
      let fs' : Fs = (create_temp (dir path) fs).1 in
      let whole = after_create path content tmp fs made in
      let (c, s, _) = write-Staged content tmp m.l fs fs' m.result m.here m.free in
      let failed = fill_temp-err tmp path content fs' e (sym (ap (λ x. x.0) whole) ∙ q) in
      ap (λ x. node_at x.1 k) whole
      ∙ remove-Staged tmp c m.l fs (fill_temp tmp path content fs').1 m.here m.free
          (subst (Staged fs m.l c) (sym failed) s) k
]

pub fill_temp-ok :
    (tmp path content : Bytes) (fs : Fs)
    → (fill_temp tmp path content fs).0 ≡ ok tt
    → ((write_string tmp content fs).0 ≡ ok tt)
      × ((Writes.rename tmp path (write_string tmp content fs).1).0 ≡ ok tt)
      × ((fill_temp tmp path content fs).1
          ≡ (Writes.rename tmp path (write_string tmp content fs).1).1)
unfolding fill_temp
fill_temp-ok tmp path content fs q = ground arith

pub not_made :
    (path content : Bytes) (fs : Fs) (e : Errno)
    → (create_temp (dir path) fs).0 ≡ err e
    → (write_file_atomic path content fs).0 ≡ err e
unfolding write_file_atomic
not_made path content fs e q = ground arith

-- If writing a file succeeds, its location holds a file with the whole content, and every other
-- location what it held before; the temporary file's name must not be the target itself.
pub write_file_atomic-ok :
    (path content : Bytes) (fs : Fs) (t k : Loc)
    → locate fs path ≡ ok t
    → locate fs (dir path ++ (slash ∷ temp_name fs.temp_suffix)) ≢ ok t
    → (write_file_atomic path content fs).0 ≡ ok tt
    → node_at (write_file_atomic path content fs).1 k
      ≡ ite (loc_discrete k t) (some (file content fs.now)) (node_at fs k)
write_file_atomic-ok path content fs t k at other q =
    elim (Result-cases (create_temp (dir path) fs).0) [
      | inr (e, made) ↦ absurd (ok≢err (sym q ∙ not_made path content fs e made))
      | inl (tmp, made) ↦
          let m = create_temp-Made (dir path) fs tmp made in
          let fs' : Fs = (create_temp (dir path) fs).1 in
          let whole = after_create path content tmp fs made in
          let (c, s, written) = write-Staged content tmp m.l fs fs' m.result m.here m.free in
          let (w, r, same) = fill_temp-ok tmp path content fs' (sym (ap (λ x. x.0) whole) ∙ q) in
          let full : Fs = (write_string tmp content fs').1 in
          let apart : m.l ≢ t = λ p. other (ap (locate fs) (sym m.named) ∙ m.here ∙ ap ok p) in
          let here = located_in fs full m.l tmp m.l m.here m.free s.others in
          let there = located_in fs full m.l path t at m.free s.others in
          let below = rename-top tmp path full m.l t c fs.now here there s.holds r in
          let moved = put t (file c fs.now) (delete m.l (delete t full)) in
          let nodes : (j : Loc)
              → node_at moved j ≡ ite (loc_discrete j t) (some (file c fs.now)) (node_at fs j) =
            λ j.
              moved_nodes fs full m.l t j c (top_taken fs m.l m.free) below apart m.free s.others in
          let filled = same ∙ rename-file tmp path full m.l t c fs.now here there s.holds apart r in
          ap (λ x. node_at x.1 k) whole
          ∙ ap (λ x. node_at (Writes.remove tmp x).1 k) filled
          ∙ ap (λ x. node_at x k)
              (remove_moved tmp fs full moved m.l t c here nodes apart m.free s.others)
          ∙ nodes k
          ∙ ap (λ x. ite (loc_discrete k t) (some (file x fs.now)) (node_at fs k)) (written w)
    ]

-- The target of a write that succeeded was located before.
pub write_file_atomic-located :
    (path content : Bytes) (fs : Fs)
    → (write_file_atomic path content fs).0 ≡ ok tt
    → (t : Loc) × (locate fs path ≡ ok t)
write_file_atomic-located path content fs q = elim (Result-cases (create_temp (dir path) fs).0) [
  | inr (e, made) ↦ absurd (ok≢err (sym q ∙ not_made path content fs e made))
  | inl (tmp, made) ↦
      let m = create_temp-Made (dir path) fs tmp made in
      let fs' : Fs = (create_temp (dir path) fs).1 in
      let whole = after_create path content tmp fs made in
      let (c, s, _) = write-Staged content tmp m.l fs fs' m.result m.here m.free in
      let (_, r, _) = fill_temp-ok tmp path content fs' (sym (ap (λ x. x.0) whole) ∙ q) in
      let (t, there) = rename-located tmp path (write_string tmp content fs').1 r in
      (t, locate-Fewer _ fs path t (Staged-Fewer fs m.l c _ s) there)
]

-- What is there before is not the place of the temporary file.
pub write_file_atomic-apart :
    (path content : Bytes) (fs : Fs) (t : Loc)
    → node_at fs t ≢ none
    → (write_file_atomic path content fs).0 ≡ ok tt
    → locate fs (dir path ++ (slash ∷ temp_name fs.temp_suffix)) ≢ ok t
write_file_atomic-apart path content fs t taken q e =
    elim (Result-cases (create_temp (dir path) fs).0) [
      | inr (c, made) ↦ absurd (ok≢err (sym q ∙ not_made path content fs c made))
      | inl (tmp, made) ↦
          let m = create_temp-Made (dir path) fs tmp made in
          let same = ap (value t) (sym e ∙ ap (locate fs) (sym m.named) ∙ m.here) in
          taken (ap (node_at fs) same ∙ m.free)
    ]
