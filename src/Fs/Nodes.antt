-- ===== src/Fs/Nodes.antt =====
-- The nodes after a change at one location.
use mathlib.Core.Logic.{ite}
use mdtree.Prelude.{◌≡◌, ◌≢◌, refl, List, [], ◌∷◌, none, some, arith}
use mdtree.Fs.Node.{Node, Loc, loc_discrete, Fs, lookup_node, remove_node, node_at, put, delete}

pub node_at-put :
    (l k : Loc) (n : Node) (fs : Fs)
    → l ≢ []
    → node_at (put l n fs) k ≡ ite (loc_discrete k l) (some n) (node_at fs k)
unfolding node_at put lookup_node
node_at-put l [] n fs h = ground arith
node_at-put l (e ∷ es) n fs h = refl

lookup_node-remove_node :
    (l k : Loc) (ns : List (Loc × Node))
    → lookup_node k (remove_node l ns) ≡ ite (loc_discrete k l) none (lookup_node k ns)
unfolding lookup_node remove_node
lookup_node-remove_node l k [] = ground arith
lookup_node-remove_node l k ((j, n) ∷ ns) = ground (arith, lookup_node-remove_node l k ns)

pub node_at-delete :
    (l k : Loc) (fs : Fs)
    → l ≢ []
    → node_at (delete l fs) k ≡ ite (loc_discrete k l) none (node_at fs k)
unfolding node_at delete
node_at-delete l [] fs h = ground arith
node_at-delete l (e ∷ es) fs h = lookup_node-remove_node l (e ∷ es) fs.nodes
