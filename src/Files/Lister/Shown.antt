-- ===== src/Files/Lister/Shown.antt =====
-- What a listing shows, and in which order.
use mathlib.Core.Path.{subst}
use mdtree.Prelude.{
  Bool, inl, inr, Bytes, ◌≡◌, ◌⊎◌, refl, ap, sym, ◌∙◌, false, List, [], ◌∷◌, arith, All, All-map,
}
use mdtree.Prelude.Sort.{
  sort_by, IsSortedBy, sort_by-IsSortedBy, All-sort_by, Any-sort_by, StrictWeak,
}
use mdtree.Result.{Result, ok, err}
use mdtree.Text.{CaseTable, to_lower, lt_bytes}
use mdtree.Text.Strings.Order.{lt_bytes-asymm, lt_bytes-negtrans}
use mdtree.Fs.Node.{Node, Fs}
use mdtree.Fs.Reads.{read_dir}
use mdtree.Files.Error.{Error}
use mdtree.Files.Op.{gets, raw}
use mdtree.Files.Op.Inversion.{gets-eq-ok, require-eq-ok}
use mdtree.Files.Resolver.{resolve}
use mdtree.Files.Lister.{
  EntryType, dir_entry, file_entry, Entry, Listing, Lister, list_entries, less_entry, list,
}
use mdtree.Files.Lister.Described.{
  IsShown, IsLeftOut, Lists, ComesFrom, list_entries-ComesFrom, list_entries-Lists,
}

less_entry-StrictWeak : (u : CaseTable) (l : Lister) → StrictWeak (less_entry u l)
unfolding less_entry
less_entry-StrictWeak u l = record {
  asymm = λ a b h. ground (arith, lt_bytes-asymm (to_lower u a.name) (to_lower u b.name));
  negtrans = λ a b c h k.
      ground (arith, lt_bytes-negtrans (to_lower u a.name) (to_lower u b.name) (to_lower u c.name));
}

-- The entry may come before the other: a directory before a file, and else not the later name
-- without regard to case.
abbrev pub Precedes : CaseTable → Entry → Entry → Type 0
Precedes u e f =
    ((e.type ≡ dir_entry) × (f.type ≡ file_entry))
    ⊎ ((e.type ≡ f.type) × (lt_bytes (to_lower u f.name) (to_lower u e.name) ≡ false))

abbrev pub IsOrdered : CaseTable → List Entry → Type 0
IsOrdered u [] = Unit
IsOrdered u (e ∷ es) = All (Precedes u e) es × IsOrdered u es

by_type :
    (u : CaseTable) (l : Lister) (e f : Entry) (t t' : EntryType)
    → e.type ≡ t
    → f.type ≡ t'
    → less_entry u l f e ≡ false
    → Precedes u e f
unfolding less_entry
by_type u l e f dir_entry dir_entry p q h = inr (p ∙ sym q, ground arith)
by_type u l e f dir_entry file_entry p q h = inl (p, q)
by_type u l e f file_entry dir_entry p q h = absurd (ground arith)
by_type u l e f file_entry file_entry p q h = inr (p ∙ sym q, ground arith)

less_entry-IsOrdered :
    (u : CaseTable) (l : Lister) (es : List Entry) → IsSortedBy (less_entry u l) es → IsOrdered u es
less_entry-IsOrdered u l [] h = tt
less_entry-IsOrdered u l (e ∷ es) h =
    (All-map (λ f. by_type u l e f e.type f.type refl refl) es h.0, less_entry-IsOrdered u l es h.1)

-- The list is what `ReadDir` yields below the resolved path, filtered and sorted.
record Listed (u : CaseTable) (l : Lister) (fs : Fs) (path : Bytes) (listing : Listing)
    : Type 0 where
  des : List (Bytes × Node)
  resolved : resolve l.resolver fs path ≡ ok listing.path
  found : raw (read_dir fs listing.path) ≡ ok des
  entries : listing.entries ≡ sort_by (less_entry u l) (list_entries u l fs listing.path des)

abbrev value : {A : Type 0} → A → Result Error A → A
value a (ok b) = b
value a (err e) = a

list-Listed :
    (u : CaseTable) (l : Lister) (path : Bytes) (fs : Fs) (listing : Listing)
    → (list u l path fs).0 ≡ ok listing
    → Listed u l fs path listing
unfolding list gets
list-Listed u l path fs listing q =
    let (abs, p₁, q₁, _) = gets-eq-ok _ _ fs listing q in
    let (info, _, q₂, _) = gets-eq-ok _ _ fs listing q₁ in
    let (_, q₃, _) = require-eq-ok _ _ _ fs listing q₂ in
    let (des, p₂, q₄, _) = gets-eq-ok _ _ fs listing q₃ in
    let same = ap (value listing) q₄ in
    let same_path = ap (λ x. x.path) same in
    record {
      des = des;
      resolved = p₁ ∙ ap ok same_path;
      found = subst (λ x. raw (read_dir fs x) ≡ ok des) same_path p₂;
      entries =
          sym (ap (λ x. x.entries) same)
          ∙ ap (λ x. sort_by (less_entry u l) (list_entries u l fs x des)) same_path;
    }

-- A listing is what the directory at its path holds: every entry is that of a node there, and every
-- node there has its entry or is left out, because it is hidden or ignored, a link that leads
-- nowhere, or neither a directory nor named as a markdown file. The entry says what stands behind
-- the node. The entries are sorted: directories first, then by name without regard to case.
pub list-IsShown :
    (u : CaseTable) (l : Lister) (path : Bytes) (fs : Fs) (listing : Listing)
    → (list u l path fs).0 ≡ ok listing
    → (des : List (Bytes × Node)) × (resolve l.resolver fs path ≡ ok listing.path)
      × (raw (read_dir fs listing.path) ≡ ok des)
      × All (ComesFrom u l fs listing.path des) listing.entries
      × All
          (λ de. IsLeftOut u l fs listing.path de ⊎ Lists u l fs listing.path de listing.entries)
          des
      × IsOrdered u listing.entries
list-IsShown u l path fs listing q =
    let k = list-Listed u l path fs listing q in
    let abs = listing.path in
    let es = list_entries u l fs abs k.des in
    let less = less_entry u l in
    (
      k.des,
      k.resolved,
      k.found,
      rw k.entries (
          All-sort_by less (ComesFrom u l fs abs k.des) es
            (list_entries-ComesFrom u l fs abs k.des)),
      rw k.entries (All-map (sorted_too less es) k.des (list_entries-Lists u l fs abs k.des)),
      rw k.entries (
          less_entry-IsOrdered u l (sort_by less es)
            (sort_by-IsSortedBy less (less_entry-StrictWeak u l) es)),
    )
  where
    sorted_too :
        (less : Entry → Entry → Bool) (es : List Entry) (de : Bytes × Node)
        → IsLeftOut u l fs listing.path de ⊎ Lists u l fs listing.path de es
        → IsLeftOut u l fs listing.path de ⊎ Lists u l fs listing.path de (sort_by less es)
    sorted_too less es de (inl h) = inl h
    sorted_too less es de (inr h) = inr (Any-sort_by less (IsShown u l fs listing.path de) es h)
