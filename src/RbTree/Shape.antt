-- ===== src/RbTree/Shape.antt =====
-- c/src/rb_tree.c: the tree that the nodes of a store spell.
use artorias.Prelude.{
  ◌≡◌, ◌∙◌, ◌≢◌, Bool, true, false, ◌||◌, Option, some, List, [], ◌∷◌, ◌++◌, arith, ◌==◌,
}
use artorias.RbTree.Store.{Ptr, null, Color, Node, put}

-- A node with its address and colour, between its two subtrees.
pub data Tree : Type 0 where
  leaf : Tree
  node : Tree → Ptr → Color → Tree → Tree

abbrev pub inorder : Tree → List Ptr
inorder leaf = []
inorder (node l a c r) = inorder l ++ (a ∷ inorder r)

abbrev pub holds : Ptr → Tree → Bool
holds a leaf = false
holds a (node l b c r) = (a == b) || (holds a l || holds a r)

abbrev pub root_of : Tree → Ptr
root_of leaf = null
root_of (node l a c r) = a

abbrev pub mk_node : Ptr → Ptr → Ptr → Color → Node
mk_node p l r c = record { parent = p; left_child = l; right_child = r; color = c }

-- In the store, `t` hangs at its root below `parent`: every node has its two links, the link to its
-- parent and its colour.
abbrev pub Spells : (Ptr → Option Node) → Ptr → Tree → Type 0
Spells c parent leaf = Unit
Spells c parent (node l a col r) =
    (a ≢ null)
    × (c a ≡ some (mk_node parent (root_of l) (root_of r) col))
    × Spells c a l
    × Spells c a r

-- Every address stands in the tree once.
abbrev pub IsSimple : Tree → Type 0
IsSimple leaf = Unit
IsSimple (node l a c r) =
    (holds a l ≡ false)
    × (holds a r ≡ false)
    × ((x : Ptr) → holds x l ≡ true → holds x r ≡ false)
    × IsSimple l
    × IsSimple r

-- A write outside a tree does not change what it spells.
pub Spells-put :
    (c : Ptr → Option Node) (p parent : Ptr) (n : Node) (t : Tree)
    → holds p t ≡ false
    → Spells c parent t
    → Spells (put p n c) parent t
unfolding put
Spells-put c p parent n leaf out s = tt
Spells-put c p parent n (node l a col r) out (ne, cell, sl, sr) = (
  ne,
  ground arith,
  Spells-put c p a n l (ground arith) sl,
  Spells-put c p a n r (ground arith) sr,
)

-- The store reads the same at every address of the tree.
abbrev Same : (Ptr → Option Node) → (Ptr → Option Node) → Tree → Type 0
Same c c' t = (x : Ptr) → holds x t ≡ true → c' x ≡ c x

pub Spells-Same :
    (c c' : Ptr → Option Node) (parent : Ptr) (t : Tree)
    → Same c c' t
    → Spells c parent t
    → Spells c' parent t
Spells-Same c c' parent leaf same s = tt
Spells-Same c c' parent (node l a col r) same (ne, cell, sl, sr) = (
  ne,
  same a (ground arith) ∙ cell,
  Spells-Same c c' a l (λ x h. same x (ground arith)) sl,
  Spells-Same c c' a r (λ x h. same x (ground arith)) sr,
)
