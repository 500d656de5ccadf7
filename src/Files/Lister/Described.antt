-- ===== src/Files/Lister/Described.antt =====
-- Which entry of a listing stands for which node of the directory.
use mdtree.Prelude.{
  ℕ, inl, inr, ◌≢◌, Bool-cases, Bytes, bytes, ◌≡◌, ◌⊎◌, refl, ap, sym, ◌∙◌, true, false, not, ◌&&◌,
  List, [], ◌∷◌, Option, none, some, arith, All, All-map, Any, has,
}
use mdtree.Result.{ok, err}
use mdtree.Text.{CaseTable, has_prefix}
use mdtree.FilePath.{join}
use mdtree.Fs.Node.{Errno, Node, dir, file, link, Fs}
use mdtree.Fs.Reads.{stat, node_size, read_dir}
use mdtree.Fs.Reads
use mdtree.Fs.Temp.{Result-cases}
use mdtree.Files.Manager.{node_time}
use mdtree.Files.Markdown.{is_markdown}
use mdtree.Files.Lister.{
  entry_is_dir, dir_entry, file_entry, Entry, Lister, list_entry, cons_some, list_entries,
}

-- What stands behind a node of a directory: for a link, what its path leads to.
abbrev pub Leads : Fs → Bytes → Node → Node → Type 0
Leads fs full (link target t) m = stat fs full ≡ ok m
Leads fs full (dir t) m = m ≡ dir t
Leads fs full (file c t) m = m ≡ file c t

-- The node is no link, or one whose path leads nowhere.
abbrev pub IsLost : Fs → Bytes → Node → Type 0
IsLost fs full (link target t) = (e : Errno) × (stat fs full ≡ err e)
IsLost fs full _ = ⊥

-- The entry of a node of the directory: neither hidden, unless these are shown, nor ignored; as a
-- directory where one stands behind the node, and else as a file, whose name is that of a markdown
-- file.
pub record IsShown (u : CaseTable) (l : Lister) (fs : Fs) (abs : Bytes) (de : Bytes × Node)
    (e : Entry) : Type 0 where
  pub behind : Node
  pub leads : Leads fs (join abs de.0) de.1 behind
  pub visible : not l.show_hidden && has_prefix de.0 (bytes ".") ≡ false
  pub kept : has l.ignore de.0 ≡ false
  pub same_name : e.name ≡ de.0
  pub below : e.path ≡ join abs de.0
  pub time : e.mod_time ≡ node_time de.1
  pub kind :
      (((t : ℕ) × (behind ≡ dir t)) × (e.type ≡ dir_entry) × (e.size ≡ 0))
      ⊎ (((t : ℕ) → behind ≢ dir t)
          × (is_markdown u de.0 ≡ true)
          × (e.type ≡ file_entry)
          × (e.size ≡ node_size de.1))

-- What is left out: what is hidden or ignored, a link that leads nowhere, and what is neither a
-- directory nor named as a markdown file.
abbrev pub IsLeftOut : CaseTable → Lister → Fs → Bytes → Bytes × Node → Type 0
IsLeftOut u l fs abs (name, n) =
    (not l.show_hidden && has_prefix name (bytes ".") ≡ true)
    ⊎ (has l.ignore name ≡ true)
    ⊎ IsLost fs (join abs name) n
    ⊎ ((m : Node) × Leads fs (join abs name) n m
        × ((t : ℕ) → m ≢ dir t)
        × (is_markdown u name ≡ false))

-- Some entry of the list is that of the node.
abbrev pub Lists : CaseTable → Lister → Fs → Bytes → Bytes × Node → List Entry → Type 0
Lists u l fs abs de = Any (IsShown u l fs abs de)

-- The entry is that of some node of the list.
abbrev pub ComesFrom : CaseTable → Lister → Fs → Bytes → List (Bytes × Node) → Entry → Type 0
ComesFrom u l fs abs des e = Any (λ de. IsShown u l fs abs de e) des

is_dir-dir : (n : Node) → Reads.is_dir n ≡ true → (t : ℕ) × (n ≡ dir t)
is_dir-dir (dir t) h = (t, refl)
is_dir-dir (file c t) h = cc
is_dir-dir (link target t) h = cc

true≢false : true ≢ false
true≢false q = cc

not_dir : (n : Node) → Reads.is_dir n ≡ false → (t : ℕ) → n ≢ dir t
not_dir n h t e = absurd (true≢false (sym (ap Reads.is_dir e) ∙ h))

-- One node behind the entry decides, or none is there.
entry_is_dir-Leads :
    (fs : Fs) (full : Bytes) (n : Node)
    → ((m : Node) × Leads fs full n m × (entry_is_dir fs full n ≡ some (Reads.is_dir m)))
      ⊎ (IsLost fs full n × (entry_is_dir fs full n ≡ none))
unfolding entry_is_dir
entry_is_dir-Leads fs full (dir t) = inl (dir t, refl, refl)
entry_is_dir-Leads fs full (file c t) = inl (file c t, refl, refl)
entry_is_dir-Leads fs full (link target t) = elim (Result-cases (stat fs full)) [
  | inl (m, q) ↦ inl (m, q, ground arith)
  | inr (e, q) ↦ inr ((e, q), ground arith)
]

module _ (u : CaseTable) (l : Lister) (fs : Fs) (abs : Bytes) where
  abbrev Shows : Bytes × Node → Option Entry → Type 0
  Shows de none = IsLeftOut u l fs abs de
  Shows de (some e) = IsShown u l fs abs de e

  kept-Shows :
      (name : Bytes) (n m : Node)
      → not l.show_hidden && has_prefix name (bytes ".") ≡ false
      → has l.ignore name ≡ false
      → Leads fs (join abs name) n m
      → entry_is_dir fs (join abs name) n ≡ some (Reads.is_dir m)
      → Shows (name, n) (list_entry u l fs abs (name, n))
  unfolding list_entry
  kept-Shows name n m v k led q = elim (Bool-cases (Reads.is_dir m)) [
    | inl d ↦
        rw (v, k, q, d)
          (record {
            behind = m;
            leads = led;
            visible = v;
            kept = k;
            same_name = refl;
            below = refl;
            time = refl;
            kind = inl (is_dir-dir m d, refl, refl);
          })
    | inr d ↦ elim (Bool-cases (is_markdown u name)) [
      | inl md ↦
          rw (v, k, q, d, md)
            (record {
              behind = m;
              leads = led;
              visible = v;
              kept = k;
              same_name = refl;
              below = refl;
              time = refl;
              kind = inr (not_dir m d, md, refl, refl);
            })
      | inr md ↦ rw (v, k, q, d, md) (inr (inr (inr (m, led, not_dir m d, md))))
    ]
  ]

  list_entry-Shows : (de : Bytes × Node) → Shows de (list_entry u l fs abs de)
  unfolding list_entry
  list_entry-Shows (name, n) =
      elim (Bool-cases (not l.show_hidden && has_prefix name (bytes "."))) [
        | inl v ↦ rw v (inl v)
        | inr v ↦ elim (Bool-cases (has l.ignore name)) [
          | inl k ↦ rw (v, k) (inr (inl k))
          | inr k ↦ elim (entry_is_dir-Leads fs (join abs name) n) [
            | inr (lost, q) ↦ rw (v, k, q) (inr (inr (inl lost)))
            | inl (m, led, q) ↦ kept-Shows name n m v k led q
          ]
        ]
      ]

  -- Every entry is that of a node of the directory.
  pub list_entries-ComesFrom :
      (des : List (Bytes × Node)) → All (ComesFrom u l fs abs des) (list_entries u l fs abs des)
  unfolding list_entries
  list_entries-ComesFrom [] = tt
  list_entries-ComesFrom (de ∷ des) =
      add (list_entry u l fs abs de) (list_entry-Shows de)
        (All-map (λ e. inr) (list_entries u l fs abs des) (list_entries-ComesFrom des))
    where
      add :
          (o : Option Entry)
          → Shows de o
          → All (ComesFrom u l fs abs (de ∷ des)) (list_entries u l fs abs des)
          → All (ComesFrom u l fs abs (de ∷ des)) (cons_some u l o (list_entries u l fs abs des))
      add none h rest = rest
      add (some e) h rest = (inl h, rest)

  -- Every node of the directory has its entry, or is left out.
  pub list_entries-Lists :
      (des : List (Bytes × Node))
      → All (λ de. IsLeftOut u l fs abs de ⊎ Lists u l fs abs de (list_entries u l fs abs des)) des
  unfolding list_entries
  list_entries-Lists [] = tt
  list_entries-Lists (de ∷ des) = (
    first (list_entry u l fs abs de) (list_entry-Shows de),
    All-map (λ d h. later d (list_entry u l fs abs de) h) des (list_entries-Lists des),
  )
    where
      rest : List Entry
      rest = list_entries u l fs abs des

      first :
          (o : Option Entry)
          → Shows de o
          → IsLeftOut u l fs abs de ⊎ Lists u l fs abs de (cons_some u l o rest)
      first none h = inl h
      first (some e) h = inr (inl h)

      later :
          (d : Bytes × Node) (o : Option Entry)
          → IsLeftOut u l fs abs d ⊎ Lists u l fs abs d rest
          → IsLeftOut u l fs abs d ⊎ Lists u l fs abs d (cons_some u l o rest)
      later d none h = h
      later d (some e) (inl h) = inl h
      later d (some e) (inr h) = inr (inr h)
