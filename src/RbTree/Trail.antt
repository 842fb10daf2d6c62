-- ===== src/RbTree/Trail.antt =====
-- c/src/rb_tree.c: a tree with a place in it, as the loops of `rb_tree_insert` and
-- `rb_tree_insert_case` go down and up a tree: the subtree at the place, and the trail of nodes
-- above it, the innermost first.
pub mod Turn
use artorias.Prelude.{
  ℕ, zero, suc, ◌+◌, ◌≤◌, ◌<◌, ◌≡◌, refl, sym, ◌∙◌, ap, subst, ◌≢◌, Bool, true, false, Option, some,
  List, [], ◌∷◌, arith, ◌==◌,
}
use artorias.RbTree.Store.{
  Ptr, null, Color, Node, Side, left, right, Store, Run, done, put, load, set_color,
}
use artorias.RbTree.Shape.{Tree, leaf, node, root_of, mk_node, Spells}

-- A node above the place: on which side of it the place is, and its other subtree.
pub data Frame : Type 0 where
  frame : Side → Ptr → Color → Tree → Frame

abbrev pub Trail : Type 0
Trail = List Frame

-- The parent of the place.
abbrev pub top : Trail → Ptr
top [] = null
top (frame side a c t ∷ up) = a

-- The root of the whole tree, where `h` is the root of the subtree at the place.
abbrev pub bottom : Trail → Ptr → Ptr
bottom [] h = h
bottom (frame side a c t ∷ up) h = bottom up a

abbrev pub plug_in : Frame → Tree → Tree
plug_in (frame left a c r) t = node t a c r
plug_in (frame right a c l) t = node l a c t

-- The whole tree.
abbrev pub plug : Trail → Tree → Tree
plug [] t = t
plug (f ∷ up) t = plug up (plug_in f t)

abbrev pub tally : Bool → ℕ
tally true = 1
tally false = 0

-- How often an address stands in a tree, and in a trail.
abbrev pub count : Ptr → Tree → ℕ
count x leaf = 0
count x (node l a c r) = tally (x == a) + (count x l + count x r)

abbrev pub count_trail : Ptr → Trail → ℕ
count_trail x [] = 0
count_trail x (frame side a c t ∷ up) = tally (x == a) + (count x t + count_trail x up)

abbrev pub frame_node : Side → Ptr → Ptr → Ptr → Color → Node
frame_node left p h q c = mk_node p h q c
frame_node right p h q c = mk_node p q h c

-- The store spells the trail, with the link `h` at the place.
abbrev pub Around : (Ptr → Option Node) → Trail → Ptr → Type 0
Around c [] h = Unit
Around c (frame side a col t ∷ up) h =
    (a ≢ null)
    × (c a ≡ some (frame_node side (top up) h (root_of t) col))
    × Spells c a t
    × Around c up a

-- The store is a tree with `t` at the place below `up`, and no address stands in it twice.
pub record Zip (s : Store) (up : Trail) (t : Tree) : Type 0 where
  pub at_root : s.root ≡ bottom up (root_of t)
  pub focus : Spells s.cell (top up) t
  pub around : Around s.cell up (root_of t)
  pub once : (x : Ptr) → count x t + count_trail x up ≤ 1

pub Zip-up :
    (s : Store) (f : Frame) (up : Trail) (t : Tree) → Zip s (f ∷ up) t → Zip s up (plug_in f t)
Zip-up s (frame left a c r) up t z =
    let (ne, cell, other, above) = z.around in
    record {
      at_root = z.at_root;
      focus = (ne, cell, z.focus, other);
      around = above;
      once = λ x. omega (arith, z.once x);
    }
Zip-up s (frame right a c l) up t z =
    let (ne, cell, other, above) = z.around in
    record {
      at_root = z.at_root;
      focus = (ne, cell, other, z.focus);
      around = above;
      once = λ x. omega (arith, z.once x);
    }

pub Zip-down :
    (s : Store) (f : Frame) (up : Trail) (t : Tree) → Zip s up (plug_in f t) → Zip s (f ∷ up) t
Zip-down s (frame left a c r) up t z =
    let (ne, cell, here, other) = z.focus in
    record {
      at_root = z.at_root;
      focus = here;
      around = (ne, cell, other, z.around);
      once = λ x. omega (arith, z.once x);
    }
Zip-down s (frame right a c l) up t z =
    let (ne, cell, other, here) = z.focus in
    record {
      at_root = z.at_root;
      focus = here;
      around = (ne, cell, other, z.around);
      once = λ x. omega (arith, z.once x);
    }

-- What a store spells depends on the addresses that stand there only.
pub Spells-same :
    (c c' : Ptr → Option Node) (parent : Ptr) (t : Tree)
    → ((x : Ptr) → 0 < count x t → c' x ≡ c x)
    → Spells c parent t
    → Spells c' parent t
Spells-same c c' parent leaf same h = tt
Spells-same c c' parent (node l a col r) same (ne, cell, sl, sr) = (
  ne,
  same a (ground arith) ∙ cell,
  Spells-same c c' a l (λ x h. same x (omega arith)) sl,
  Spells-same c c' a r (λ x h. same x (omega arith)) sr,
)

pub Around-same :
    (c c' : Ptr → Option Node) (up : Trail) (h : Ptr)
    → ((x : Ptr) → 0 < count_trail x up → c' x ≡ c x)
    → Around c up h
    → Around c' up h
Around-same c c' [] h same g = tt
Around-same c c' (frame side a col t ∷ up) h same (ne, cell, st, above) = (
  ne,
  same a (ground arith) ∙ cell,
  Spells-same c c' a t (λ x h. same x (omega arith)) st,
  Around-same c c' up a (λ x h. same x (omega arith)) above,
)

pub put_here : (p : Ptr) (n : Node) (c : Ptr → Option Node) → put p n c p ≡ some n
unfolding put
put_here p n c = ground arith

pub put_there : (p x : Ptr) (n : Node) (c : Ptr → Option Node) → x ≢ p → put p n c x ≡ c x
unfolding put
put_there p x n c ne = ground arith

-- An address that stands somewhere is not one that stands there not at all.
pub count_ne : (p x : Ptr) (t : Tree) → count p t ≡ 0 → 0 < count x t → x ≢ p
count_ne p x t out h e = let h' : 0 < count p t = subst (λ y. 0 < count y t) e h in omega arith

pub count_trail_ne : (p x : Ptr) (up : Trail) → count_trail p up ≡ 0 → 0 < count_trail x up → x ≢ p
count_trail_ne p x up out h e =
    let h' : 0 < count_trail p up = subst (λ y. 0 < count_trail y up) e h in omega arith

pub load-done :
    (p : Ptr) (n : Node) (s : Store) → p ≢ null → s.cell p ≡ some n → load p s ≡ done n s
unfolding load
load-done p n s ne cell = let e : (p == null) ≡ false = ground arith in rw (e, cell)

-- A write outside the tree.
pub Zip-put :
    (s : Store) (up : Trail) (t : Tree) (p : Ptr) (n : Node)
    → Zip s up t
    → count p t + count_trail p up ≡ 0
    → Zip (record s { cell = put p n s.cell }) up t
Zip-put s up t p n z out = record {
  at_root = z.at_root;
  focus =
      Spells-same s.cell _ (top up) t
        (λ x h. put_there p x n s.cell (count_ne p x t (omega arith) h)) z.focus;
  around =
      Around-same s.cell _ up (root_of t)
        (λ x h. put_there p x n s.cell (count_trail_ne p x up (omega arith) h)) z.around;
  once = z.once;
}

-- The node at the place.
pub Zip-load :
    (s : Store) (up : Trail) (l : Tree) (a : Ptr) (c : Color) (r : Tree)
    → Zip s up (node l a c r)
    → load a s ≡ done (mk_node (top up) (root_of l) (root_of r) c) s
Zip-load s up l a c r z = let (ne, cell, sl, sr) = z.focus in load-done a _ s ne cell

-- A change of its colour.
pub Zip-set_color :
    (s : Store) (up : Trail) (l : Tree) (a : Ptr) (c c' : Color) (r : Tree)
    → Zip s up (node l a c r)
    → (s' : Store) × (set_color a c' s ≡ done tt s') × Zip s' up (node l a c' r)
unfolding set_color
Zip-set_color s up l a c c' r z =
    let (ne, cell, sl, sr) = z.focus in
    let n = mk_node (top up) (root_of l) (root_of r) c' in
    let cells = put a n s.cell in
    (
      record s { cell = cells },
      rw (load-done a _ s ne cell),
      record {
        at_root = z.at_root;
        focus = (
          ne,
          put_here a n s.cell,
          Spells-same s.cell cells a l
              (λ x h. put_there a x n s.cell (count_ne a x l (ground (arith, z.once a)) h)) sl,
          Spells-same s.cell cells a r
              (λ x h. put_there a x n s.cell (count_ne a x r (ground (arith, z.once a)) h)) sr,
        );
        around =
            Around-same s.cell cells up a
              (λ x h. put_there a x n s.cell (count_trail_ne a x up (ground (arith, z.once a)) h))
              z.around;
        once = λ x. omega (arith, z.once x);
      },
    )

-- The node above the place, as the store has it.
pub Zip-load-top :
    (s : Store) (side : Side) (a : Ptr) (c : Color) (up : Trail) (t x : Tree)
    → Zip s (frame side a c t ∷ up) x
    → load a s ≡ done (frame_node side (top up) (root_of x) (root_of t) c) s
Zip-load-top s side a c up t x z = let (ne, cell, st, above) = z.around in load-done a _ s ne cell
