-- ===== src/Files/Manager/Staged.antt =====
-- The temporary file of an atomic write: what it leaves alone, and how it goes away.
use mathlib.Core.Logic.{ite}
use mathlib.Core.Path.{subst}
use mdtree.Prelude.{Bytes, ◌≡◌, ◌≢◌, inl, inr, sym, ap, ◌∙◌, [], none, some, arith}
use mdtree.Result.{ok}
use mdtree.Fs.Node.{file, Loc, loc_discrete, Fs, node_at, put, delete}
use mdtree.Fs.Reads.{locate}
use mdtree.Fs.Nodes.{node_at-put, node_at-delete}
use mdtree.Fs.Fewer.{Fewer, EndsAt, locate-Fewer, value}
use mdtree.Fs.Writes.{temp_name, create_temp, write_string}
use mdtree.Fs.Writes
use mdtree.Fs.Temp.{
  Except, Except-Fewer, write_string-file, remove-file, remove-none, remove-unlocated, top_taken,
  Result-cases,
}

-- A temporary file with some content, and everything else as it was.
pub record Staged (fs : Fs) (l : Loc) (c : Bytes) (fs' : Fs) : Type 0 where
  pub others : Except l fs fs'
  pub holds : node_at fs' l ≡ some (file c fs.now)

put_twice :
    (fs : Fs) (l : Loc) (c : Bytes)
    → l ≢ []
    → Staged fs l c (put l (file c fs.now) (put l (file [] fs.now) fs))
put_twice fs l c n = record {
  others = λ k o.
      rw
        (
          node_at-put l k (file c fs.now) (put l (file [] fs.now) fs) n,
          node_at-put l k (file [] fs.now) fs n,
        )
        (ground arith);
  holds = rw (node_at-put l l (file c fs.now) (put l (file [] fs.now) fs) n) (ground arith);
}

pub located_in :
    (fs fs' : Fs) (l : Loc) (p : Bytes) (x : Loc)
    → locate fs p ≡ ok x
    → node_at fs l ≡ none
    → Except l fs fs'
    → locate fs' p ≡ ok x
located_in fs fs' l p x here free same =
    locate-Fewer fs fs' p x (Except-Fewer l fs fs' same (subst EndsAt (sym free) tt)) here

-- What `CreateTemp` and the write leave.
pub write-Staged :
    (content tmp : Bytes) (l : Loc) (fs fs' : Fs)
    → fs' ≡ put l (file [] fs.now) fs
    → locate fs tmp ≡ ok l
    → node_at fs l ≡ none
    → (c : Bytes) × Staged fs l c (write_string tmp content fs').1
      × ((write_string tmp content fs').0 ≡ ok tt → c ≡ content)
unfolding put
write-Staged content tmp l fs fs' made here free =
    let n = top_taken fs l free in
    let at' =
      located_in fs fs' l tmp l here free
        (λ k o. rw (made, node_at-put l k (file [] fs.now) fs n) (ground arith)) in
    let (c, e, w) = write_string-file tmp content fs' l at' in
    (
      c,
      subst (Staged fs l c) (sym (e ∙ ap (λ x. put l (file c x.now) x) made)) (put_twice fs l c n),
      w,
    )

-- Removing the temporary file restores every node.
pub remove-Staged :
    (tmp c : Bytes) (l : Loc) (fs fs' : Fs)
    → locate fs tmp ≡ ok l
    → node_at fs l ≡ none
    → Staged fs l c fs'
    → (k : Loc) → node_at (Writes.remove tmp fs').1 k ≡ node_at fs k
remove-Staged tmp c l fs fs' here free s k =
    let n = top_taken fs l free in
    rw
      (
        remove-file tmp fs' l c fs.now (located_in fs fs' l tmp l here free s.others) n s.holds,
        node_at-delete l k fs' n,
      )
      (elim (loc_discrete k l) as (λ d. ite d none (node_at fs' k) ≡ node_at fs k) [
        | yes p ↦ sym (ap (node_at fs) p ∙ free)
        | no o ↦ s.others k o
      ])

-- The nodes after the temporary file took the target's place.
pub moved_nodes :
    (fs fs' : Fs) (l t k : Loc) (c : Bytes)
    → l ≢ []
    → t ≢ []
    → l ≢ t
    → node_at fs l ≡ none
    → Except l fs fs'
    → node_at (put t (file c fs.now) (delete l (delete t fs'))) k
      ≡ ite (loc_discrete k t) (some (file c fs.now)) (node_at fs k)
moved_nodes fs fs' l t k c n o d free same =
    rw
      (
        node_at-put t k (file c fs.now) (delete l (delete t fs')) o,
        node_at-delete l k (delete t fs') n,
        node_at-delete t k fs' o,
      )
      (ground (arith, same k))

moved_Fewer :
    (fs fs' moved : Fs) (l t : Loc) (c : Bytes)
    → ((k : Loc) → node_at moved k ≡ ite (loc_discrete k t) (some (file c fs.now)) (node_at fs k))
    → node_at fs l ≡ none
    → Except l fs fs'
    → Fewer moved fs'
moved_Fewer fs fs' moved l t c nodes free same k = elim (loc_discrete k t) [
  | yes p ↦
      let e : node_at moved k ≡ some (file c fs.now) = ground (arith, nodes k) in
      inr (subst EndsAt (sym e) tt)
  | no o ↦ elim (loc_discrete k l) [
    | yes p ↦
        let e : node_at moved k ≡ none = ground (arith, nodes k, ap (node_at fs) p) in
        inr (subst EndsAt (sym e) tt)
    | no o' ↦ inl (ground (arith, nodes k, same k o'))
  ]
]

-- Removing the name of the temporary file after the move changes nothing: where it is still
-- located at all, it is missing there.
pub remove_moved :
    (tmp : Bytes) (fs fs' moved : Fs) (l t : Loc) (c : Bytes)
    → locate fs' tmp ≡ ok l
    → ((k : Loc) → node_at moved k ≡ ite (loc_discrete k t) (some (file c fs.now)) (node_at fs k))
    → l ≢ t
    → node_at fs l ≡ none
    → Except l fs fs'
    → (Writes.remove tmp moved).1 ≡ moved
remove_moved tmp fs fs' moved l t c here nodes d free same =
    elim (Result-cases (locate moved tmp)) [
      | inr (e, q) ↦ remove-unlocated tmp moved e q
      | inl (l', q) ↦
          let back : Fewer moved fs' = moved_Fewer fs fs' moved l t c nodes free same in
          let same_place = ap (value l) (sym (locate-Fewer moved fs' tmp l' back q) ∙ here) in
          let gone : node_at moved l ≡ none = ground (arith, nodes l) in
          remove-none tmp moved l (q ∙ ap ok same_place) gone
    ]

-- What is located beside the temporary file was located without it.
pub Staged-Fewer : (fs : Fs) (l : Loc) (c : Bytes) (fs' : Fs) → Staged fs l c fs' → Fewer fs' fs
Staged-Fewer fs l c fs' s k = elim (loc_discrete k l) [
  | yes p ↦ inr (subst EndsAt (sym (ap (node_at fs') p ∙ s.holds)) tt)
  | no o ↦ inl (sym (s.others k o))
]
