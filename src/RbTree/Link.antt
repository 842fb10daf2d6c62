-- ===== src/RbTree/Link.antt =====
-- c/src/rb_tree.h: `rb_tree_insert` goes down the tree and links the new node at a free place.
use artorias.Prelude.{
  ℕ, zero, suc, ◌+◌, ◌≤◌, ◌<◌, ◌≡◌, refl, sym, ◌∙◌, ap, ◌≢◌, inl, inr, Bool, false, some, ◌∷◌,
  arith, ◌==◌, if◌then◌else◌, length, Bool-cases,
}
use artorias.RbTree.Store.{
  Ptr, null, Color, red, Side, left, right, child, Store, Run, done, put, set_child, set_parent,
}
use artorias.RbTree.Shape.{Tree, leaf, node, root_of, mk_node}
use artorias.RbTree.Insert.{insert_below}
use artorias.RbTree.Balance.{
  black_height, color_of, IsRedBlack, Takes, Fits, Takes-at, Beside-left, Beside-right,
  lower_left-Fits, lower_right-Fits,
}
use artorias.RbTree.Trail.{
  Trail, frame, top, plug, plug_in, count, tally, count_trail, frame_node, Zip, Zip-down,
  Zip-load-top, Zip-put, Spells-same, Around-same, put_here, put_there, count_ne, count_trail_ne,
  load-done,
}
use artorias.RbTree.Trail.Turn.{tally_ne, tally_self, set_child-frame}

-- The tree with the node `n` at the free place to which the comparison leads.
abbrev pub grow : (Ptr → Ptr → Bool) → Ptr → Tree → Tree
grow lt n leaf = node leaf n red leaf
grow lt n (node l a c r) =
    let l' = grow lt n l in let r' = grow lt n r in if lt n a then node l' a c r else node l a c r'

abbrev pub size : Tree → ℕ
size leaf = 0
size (node l a c r) = suc (size l + size r)

-- The node `n` is not in the tree yet, and has no children.
pub record IsFree (n : Ptr) (s : Store) (up : Trail) (t : Tree) : Type 0 where
  pub here : Zip s up t
  pub not_null : n ≢ null
  pub apart : count n t + count_trail n up ≡ 0
  pub parent : Ptr
  pub cell : s.cell n ≡ some (mk_node parent null null red)

-- The loop has linked the node, at a place for a red-black tree without black nodes.
pub record IsLinked (lt : Ptr → Ptr → Bool) (n : Ptr) (up : Trail) (t : Tree) (run : Run (Unit {0}))
    : Type 0 where
  pub store : Store
  pub place : Trail
  pub returns : run ≡ done tt store
  pub linked : Zip store place (node leaf n red leaf)
  pub same_tree : plug place (node leaf n red leaf) ≡ plug up (grow lt n t)
  pub takes : Takes place 0
  pub short : length place ≤ length up + size t

tally_zero : (x n : Ptr) → x ≢ n → tally (x == n) ≡ 0
tally_zero x n ne = ground arith

once_new :
    (n x : Ptr) (up : Trail)
    → count_trail n up ≡ 0
    → count_trail x up ≤ 1
    → count x (node leaf n red leaf) + count_trail x up ≤ 1
once_new n x up out h = ground arith

link :
    (n : Ptr) (s : Store) (side : Side) (a : Ptr) (c : Color) (t : Tree) (up : Trail)
    → n ≢ null
    → count_trail n (frame side a c t ∷ up) ≡ 0
    → s.cell n ≡ some (mk_node a null null red)
    → Zip s (frame side a c t ∷ up) leaf
    → (s' : Store) × (set_child side a n s ≡ done tt s')
      × Zip s' (frame side a c t ∷ up) (node leaf n red leaf)
link n s side a c t up ne out cell z =
    let (a_ne, a_cell, st, above) = z.around in
    let new = frame_node side (top up) n (root_of t) c in
    let n_a : n ≢ a = tally_ne n a (omega arith) in
    let (t_a, up_a) : (count a t ≡ 0) × (count_trail a up ≡ 0) =
      let h = z.once a in let e = tally_self a in (omega arith, omega arith) in
    (
      record s { cell = put a new s.cell },
      set_child-frame side a s (top up) null n (root_of t) c a_ne a_cell,
      record {
        at_root = z.at_root;
        focus = (ne, put_there a n new s.cell n_a ∙ cell, tt, tt);
        around = (
          a_ne,
          put_here a new s.cell,
          Spells-same s.cell _ a t (λ x h. put_there a x new s.cell (count_ne a x t t_a h)) st,
          Around-same s.cell _ up a (λ x h. put_there a x new s.cell (count_trail_ne a x up up_a h))
              above,
        );
        once = λ x. once_new n x (frame side a c t ∷ up) out (omega (arith, z.once x));
      },
    )

child-frame : (side : Side) (par h q : Ptr) (c : Color) → child side (frame_node side par h q c) ≡ h
child-frame left par h q c = refl
child-frame right par h q c = refl

-- The new node gets the parent `a`.
take_parent :
    (n a : Ptr) (s : Store) (up : Trail) (t : Tree) (free : IsFree n s up t)
    → (s' : Store) × (set_parent n a s ≡ done tt s')
      × Zip s' up t
      × (s'.cell n ≡ some (mk_node a null null red))
unfolding set_parent
take_parent n a s up t free =
    let new = mk_node a null null red in
    (
      record s { cell = put n new s.cell },
      rw (load-done n _ s free.not_null free.cell),
      Zip-put s up t n new free.here free.apart,
      put_here n new s.cell,
    )

module _ (lt : Ptr → Ptr → Bool) (n : Ptr) where
  -- A round of the loop at the node `a`, which goes on below its child `x`.
  next :
      (fuel : ℕ) (s : Store) (up : Trail) (side : Side) (a : Ptr) (c : Color) (o x : Tree)
      → IsFree n s up (plug_in (frame side a c o) x)
      → (if lt n a then left else right) ≡ side
      → grow lt n (plug_in (frame side a c o) x) ≡ plug_in (frame side a c o) (grow lt n x)
      → suc (size x) ≤ size (plug_in (frame side a c o) x)
      → count n x + count_trail n (frame side a c o ∷ up) ≡ 0
      → Takes (frame side a c o ∷ up) (black_height x)
      → ((s' : Store)
          → IsFree n s' (frame side a c o ∷ up) x
          → root_of x ≢ null
          → IsLinked lt n (frame side a c o ∷ up) x (insert_below lt fuel n (root_of x) s'))
      → IsLinked lt n up (plug_in (frame side a c o) x) (insert_below lt (suc fuel) n a s)
  unfolding insert_below
  next fuel s up side a c o leaf free to_side grown sizes apart takes rest =
      let (s1, run1, z1, cell1) = take_parent n a s up _ free in
      let z2 = Zip-down s1 (frame side a c o) up leaf z1 in
      let (s3, run3, z3) = link n s1 side a c o up free.not_null (omega arith) cell1 z2 in
      record {
        store = s3;
        place = frame side a c o ∷ up;
        returns = rw (
          run1,
          Zip-load-top s1 side a c up o leaf z2,
          to_side,
          child-frame side (top up) null (root_of o) c,
          run3,
        );
        linked = z3;
        same_tree = ap (plug up) (sym grown);
        takes = takes;
        short = omega (arith, sizes);
      }
  next fuel s up side a c o (node l b d r) free to_side grown sizes apart takes rest =
      let x = node l b d r in
      let (s1, run1, z1, cell1) = take_parent n a s up _ free in
      let z2 = Zip-down s1 (frame side a c o) up x z1 in
      let b_ne : b ≢ null = z2.focus.0 in
      let not_null : (b == null) ≡ false = ground arith in
      let free' : IsFree n s1 (frame side a c o ∷ up) x = record {
        here = z2;
        not_null = free.not_null;
        apart = apart;
        parent = a;
        cell = cell1;
      } in
      let k = rest s1 free' b_ne in
      record {
        store = k.store;
        place = k.place;
        returns = rw (
          run1,
          Zip-load-top s1 side a c up o x z2,
          to_side,
          child-frame side (top up) b (root_of o) c,
          not_null,
          k.returns,
        );
        linked = k.linked;
        same_tree = k.same_tree ∙ ap (plug up) (sym grown);
        takes = k.takes;
        short = let h = k.short in omega (arith, sizes);
      }

  pub descend :
      (fuel : ℕ) (s : Store) (up : Trail) (t : Tree)
      → IsFree n s up t
      → root_of t ≢ null
      → size t < fuel
      → IsRedBlack t
      → Takes up (black_height t)
      → Fits (color_of t) up
      → IsLinked lt n up t (insert_below lt fuel n (root_of t) s)
  descend fuel s up leaf free ne enough rb takes fits = absurd (ne refl)
  descend zero s up (node l a c r) free ne enough rb takes fits = absurd (omega arith)
  descend (suc fuel) s up (node l a c r) free ne enough (even, below, rl, rr) takes fits =
      elim (Bool-cases (lt n a)) [
        | inl less ↦
            next fuel s up left a c r l free (rw less) (rw less) (omega arith)
              (let h = free.apart in omega arith)
              (sym even, rr, Beside-left c l r up below fits, takes)
              (λ s' free' ne'.
                descend fuel s' (frame left a c r ∷ up) l free' ne' (omega arith) rl
                  (sym even, rr, Beside-left c l r up below fits, takes)
                  (lower_left-Fits c left l r a up below))
        | inr not_less ↦
            next fuel s up right a c l r free (rw not_less) (rw not_less) (omega arith)
              (let h = free.apart in omega arith)
              (even, rl, Beside-right c l r up below fits, Takes-at up _ _ (omega arith) takes)
              (λ s' free' ne'.
                descend fuel s' (frame right a c l ∷ up) r free' ne' (omega arith) rr
                  (even, rl, Beside-right c l r up below fits, Takes-at up _ _ (omega arith) takes)
                  (lower_right-Fits c right l r a up below))
      ]
