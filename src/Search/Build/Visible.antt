-- ===== src/Search/Build/Visible.antt =====
-- What the walk of `Build` indexes.
use mdtree.Prelude.{
  ℕ, suc, ◌≤◌, Bytes, bytes, has, ◌≡◌, ◌⊎◌, inl, inr, refl, Bool, true, false, [], ◌∷◌, ◌||◌, not,
  arith, length, Bool-cases, if◌then◌else◌,
}
use mdtree.Prelude.Assoc
use mdtree.Prelude.Assoc.{Assoc, lookup-insert}
use mdtree.Text.{CaseTable, has_prefix}
use mdtree.Files.Markdown.{is_markdown}
use mdtree.Search.Index.{Doc, new_doc, Index}
use mdtree.Search.Index.Updates.{IsWellFormed, insert-IsWellFormed, is_there}
use mdtree.Search.Build.{
  Tree, leaf, branch, Trees, nil, cons, Found, missing, found, Walk, child_path, skips, visit_file,
  walk_tree, walk_trees, start_walk, walk_root, build,
}

length-insert : (k : Bytes) (d : Doc) (m : Assoc Doc) → length (Assoc.insert k d m) ≤ suc (length m)
unfolding Assoc.insert
length-insert k d [] = omega arith
length-insert k d ((j, e) ∷ m) = ground (arith, length-insert k d m)

lookup-nil : (p : Bytes) → is_there (Assoc.lookup p []) ≡ true → ⊥
unfolding Assoc.lookup
lookup-nil p h = ground arith

module _ (u : CaseTable) (idx : Index) where
  -- A directory is entered when it is the root, or when it is neither ignored nor hidden.
  abbrev pub IsEntered : Bytes → Bytes → Type 0
  IsEntered path name =
      (path ≡ idx.root) ⊎ ((has idx.ignore name ≡ false) × (has_prefix name (bytes ".") ≡ false))

  -- A path is seen below a node when it is that of a markdown file there, and every directory on the
  -- way can be read and is entered.
  abbrev mutual
    pub Visible : Bytes → Tree → Bytes → Type 0
    Visible path (leaf name) p = (is_markdown u name ≡ true) × (p ≡ path)
    Visible path (branch name readable es) p =
        IsEntered path name × (readable ≡ true) × VisibleIn path es p

    pub VisibleIn : Bytes → Trees → Bytes → Type 0
    VisibleIn path nil p = ⊥
    VisibleIn path (cons t ts) p = Visible (child_path path t) t p ⊎ VisibleIn path ts p

  abbrev pub VisibleFrom : Found → Bytes → Type 0
  VisibleFrom missing p = ⊥
  VisibleFrom (found t) p = Visible idx.root t p

  abbrev pub holds : Bytes → Assoc Doc → Bool
  holds p m = is_there (Assoc.lookup p m)

  -- What a part of the walk that sees the paths of `V` does to the documents.
  record Grown (V : Bytes → Type 0) (w w' : Walk) : Type 0 where
    filed : IsWellFormed u w.docs → IsWellFormed u w'.docs
    bounded : length w.docs ≤ idx.max_files → length w'.docs ≤ idx.max_files
    sound : (p : Bytes) → holds p w'.docs ≡ true → (holds p w.docs ≡ true) ⊎ V p
    goes_on : w'.stopped ≡ false → w.stopped ≡ false
    complete :
        (p : Bytes) → w'.stopped ≡ false → (holds p w.docs ≡ true) ⊎ V p → holds p w'.docs ≡ true

  Grown-then :
      {V V' : Bytes → Type 0} {w w' w'' : Walk}
      → Grown V w w'
      → Grown V' w' w''
      → Grown (λ p. V p ⊎ V' p) w w''
  Grown-then g h = record {
    filed = λ f. h.filed (g.filed f);
    bounded = λ b. h.bounded (g.bounded b);
    sound = λ p e. elim (h.sound p e) [
      | inl e' ↦ elim (g.sound p e') [ inl e'' ↦ inl e'' | inr v ↦ inr (inl v) ]
      | inr v ↦ inr (inr v)
    ];
    goes_on = λ e. g.goes_on (h.goes_on e);
    complete = λ p e c. elim c [
      | inl e' ↦ h.complete p e (inl (g.complete p (h.goes_on e) (inl e')))
      | inr v ↦ elim v [
        | inl v' ↦ h.complete p e (inl (g.complete p (h.goes_on e) (inr v')))
        | inr v' ↦ h.complete p e (inr v')
      ]
    ];
  }

  -- Nothing is done where the walk has stopped, or where nothing is to be seen.
  Grown-same :
      {V : Bytes → Type 0} (w : Walk) → (w.stopped ≡ false → (p : Bytes) → V p → ⊥) → Grown V w w
  Grown-same w h = record {
    filed = λ f. f;
    bounded = λ b. b;
    sound = λ p e. inl e;
    goes_on = λ e. e;
    complete = λ p e c. elim c [ inl e' ↦ e' | inr v ↦ absurd (h e p v) ];
  }

  visit_file-Grown :
      (path name : Bytes) (w : Walk)
      → w.stopped ≡ false
      → Grown (Visible path (leaf name)) w (visit_file u idx path name w)
  unfolding visit_file
  visit_file-Grown path name w s = record {
    filed = λ f. ground (arith, insert-IsWellFormed u path w.docs f);
    bounded = λ b. ground (arith, length-insert path (new_doc u path) w.docs);
    sound = λ p e. ground (arith, lookup-insert path p (new_doc u path) w.docs);
    goes_on = λ e. s;
    complete = λ p e c. ground (arith, lookup-insert path p (new_doc u path) w.docs);
  }

  unless_stopped :
      {V : Bytes → Type 0} {w : Walk} (b : Bool) (w' : Walk)
      → w.stopped ≡ b
      → (w.stopped ≡ false → Grown V w w')
      → Grown V w (if b then w else w')
  unless_stopped {w = w} true w' s g = Grown-same w (λ e p v. ground arith)
  unless_stopped false w' s g = g s

  skips-IsEntered : (path name : Bytes) → skips u idx path name ≡ false → IsEntered path name
  unfolding skips
  skips-IsEntered path name h = ground arith

  IsEntered-skips : (path name : Bytes) → IsEntered path name → skips u idx path name ≡ false
  unfolding skips
  IsEntered-skips path name (inl e) = ground arith
  IsEntered-skips path name (inr e) = ground arith

  branch-Grown :
      (path name : Bytes) (readable : Bool) (es : Trees) (w w' : Walk)
      → Grown (VisibleIn path es) w w'
      → Grown
          (Visible path (branch name readable es))
          w
          (if w.stopped || skips u idx path name || not readable then w else w')
  branch-Grown path name readable es w w' g =
      elim (Bool-cases (w.stopped || skips u idx path name || not readable)) [
        | inl s ↦ rw s (Grown-same w (λ e p v. ground (arith, IsEntered-skips path name v.0)))
        | inr s ↦ rw s (record {
          filed = g.filed;
          bounded = g.bounded;
          sound = λ p e. elim (g.sound p e) [
            | inl h ↦ inl h
            | inr v ↦ inr (skips-IsEntered path name (ground arith), ground arith, v)
          ];
          goes_on = g.goes_on;
          complete = λ p e c. g.complete p e (elim c [ inl h ↦ inl h | inr v ↦ inr v.2 ]);
        })
      ]

  mutual
    unfolding walk_tree walk_trees

    walk_tree-Grown :
        (path : Bytes) (t : Tree) (w : Walk) → Grown (Visible path t) w (walk_tree u idx path t w)
    walk_tree-Grown path (leaf name) w =
        unless_stopped w.stopped (visit_file u idx path name w) refl (visit_file-Grown path name w)
    walk_tree-Grown path (branch name readable es) w =
        branch-Grown path name readable es w (walk_trees u idx path es w)
          (walk_trees-Grown path es w)

    walk_trees-Grown :
        (path : Bytes) (ts : Trees) (w : Walk)
        → Grown (VisibleIn path ts) w (walk_trees u idx path ts w)
    walk_trees-Grown path nil w = Grown-same w (λ e p v. v)
    walk_trees-Grown path (cons t ts) w =
        Grown-then (walk_tree-Grown (child_path path t) t w)
          (walk_trees-Grown path ts (walk_tree u idx (child_path path t) t w))

  start_walk-Grown : (t : Found) → Grown (VisibleFrom t) (start_walk u idx) (walk_root u idx t)
  unfolding walk_root
  start_walk-Grown missing = Grown-same (start_walk u idx) (λ e p v. v)
  start_walk-Grown (found t) = walk_tree-Grown idx.root t (start_walk u idx)

  -- Building, from whatever the tree is and whatever the index held, leaves every document under
  -- its own path, made from it, no path twice, and no more documents than the cap.
  pub build-IsWellFormed :
      (t : Found) (start ended swapped : ℕ)
      → IsWellFormed u (build u idx t start ended swapped).2.docs
        × (length (build u idx t start ended swapped).2.docs ≤ idx.max_files)
  unfolding build
  build-IsWellFormed t start ended swapped =
      let g = start_walk-Grown t in (g.filed (tt, tt), g.bounded (omega arith))

  -- After building, only paths are indexed that are seen from the root: those of markdown files
  -- with every directory on the way readable and, but for the root itself, neither named in the
  -- ignore list nor hidden by a name that starts with a dot.
  pub build-VisibleFrom :
      (t : Found) (start ended swapped : ℕ) (p : Bytes)
      → holds p (build u idx t start ended swapped).2.docs ≡ true
      → VisibleFrom t p
  unfolding build
  build-VisibleFrom t start ended swapped p e = elim ((start_walk-Grown t).sound p e) [
    | inl h ↦ absurd (lookup-nil p h)
    | inr v ↦ v
  ]

  -- Where the walk was not cut short by the cap, all paths that are seen from the root are indexed
  -- after building.
  pub VisibleFrom-build :
      (t : Found) (start ended swapped : ℕ) (p : Bytes)
      → (walk_root u idx t).stopped ≡ false
      → VisibleFrom t p
      → holds p (build u idx t start ended swapped).2.docs ≡ true
  unfolding build
  VisibleFrom-build t start ended swapped p e v = (start_walk-Grown t).complete p e (inr v)
