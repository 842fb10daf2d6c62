-- ===== src/RbTree/Repair/Steps.antt =====
-- c/src/rb_tree.c: what the rounds of `rb_tree_insert_case` do, at a place of a tree.
use artorias.Prelude.{◌≡◌, refl, ◌≢◌, false, ◌∷◌, arith, ◌==◌}
use artorias.RbTree.Store.{
  Ptr, null, Color, red, black, Side, left, right, other, is_red, Store, done, set_color,
}
use artorias.RbTree.Shape.{Tree, leaf, node, root_of, Spells}
use artorias.RbTree.Insert.{red_node, turn_grandfather}
use artorias.RbTree.Rotate.{uncle}
use artorias.RbTree.Balance.{color_of}
use artorias.RbTree.Trail.{
  Trail, frame, frame_node, top, count, Zip, Zip-up, Zip-down, Zip-load, Zip-set_color, load-done,
}
use artorias.RbTree.Trail.Turn.{
  parent-frame, same_test, tally_self, rotate_right-Zip, rotate_left-Zip,
}

-- A node is not the root of a tree in which it does not stand.
pub other_test : (n : Ptr) (y : Tree) → n ≢ null → count n y ≡ 0 → (n == root_of y) ≡ false
other_test n leaf ne h = ground arith
other_test n (node l a c r) ne h = ground arith

module _ (s : Store) (up : Trail) (l : Tree) (n : Ptr) (c : Color) (r : Tree) (fa : Ptr)
    (cf : Color) (y : Tree) (g : Ptr) (cg : Color) (u : Tree) where
  pub turn_right_side :
      Zip s up (node (node (node l n c r) fa cf y) g cg u)
      → (s' : Store) × (turn_grandfather n s ≡ done tt s')
        × Zip s' up (node (node l n c r) fa black (node y g red u))
  unfolding turn_grandfather
  turn_right_side z =
      let z1 = Zip-down s (frame left g cg u) up (node (node l n c r) fa cf y) z in
      let z2 = Zip-down s (frame left fa cf y) _ (node l n c r) z1 in
      let (s3, run3, z3) = Zip-set_color s (frame left g cg u ∷ up) _ fa cf black _ z1 in
      let z4 = Zip-up s3 (frame left g cg u) up _ z3 in
      let (s5, run5, z5) = Zip-set_color s3 up _ g cg red _ z4 in
      let z6 = Zip-down s5 (frame left g red u) up _ z5 in
      let (s7, run7, z7) = rotate_right-Zip s5 up (node l n c r) y u fa g black red z5 in
      (
        s7,
        rw
            (
              Zip-load s _ l n c r z2,
              Zip-load s _ _ fa cf y z1,
              run3,
              run5,
              Zip-load s5 _ _ fa black y z6,
              same_test n,
            )
            run7,
        z7,
      )

  pub turn_left_side :
      Zip s up (node u g cg (node y fa cf (node l n c r)))
      → (s' : Store) × (turn_grandfather n s ≡ done tt s')
        × Zip s' up (node (node u g red y) fa black (node l n c r))
  unfolding turn_grandfather
  turn_left_side z =
      let z1 = Zip-down s (frame right g cg u) up (node y fa cf (node l n c r)) z in
      let z2 = Zip-down s (frame right fa cf y) _ (node l n c r) z1 in
      let (s3, run3, z3) = Zip-set_color s (frame right g cg u ∷ up) _ fa cf black _ z1 in
      let z4 = Zip-up s3 (frame right g cg u) up _ z3 in
      let (s5, run5, z5) = Zip-set_color s3 up _ g cg red _ z4 in
      let z6 = Zip-down s5 (frame right g red u) up _ z5 in
      let (s7, run7, z7) = rotate_left-Zip s5 up u y (node l n c r) g fa red black z5 in
      let alone : count n y ≡ 0 = let h = z2.once n in let e = tally_self n in omega arith in
      (
        s7,
        rw
            (
              Zip-load s _ l n c r z2,
              Zip-load s _ y fa cf (node l n c r) z1,
              run3,
              run5,
              Zip-load s5 _ _ fa black (node l n c r) z6,
              other_test n y z2.focus.0 alone,
            )
            run7,
        z7,
      )

-- The other child of the node above the place takes the place's part.
swap :
    (s : Store) (side : Side) (g : Ptr) (c : Color) (up : Trail) (t u : Tree)
    → Zip s (frame side g c u ∷ up) t
    → Zip s (frame (other side) g c t ∷ up) u
swap s left g c up t u z = Zip-down s (frame right g c t) up u (Zip-up s (frame left g c u) up t z)
swap s right g c up t u z = Zip-down s (frame left g c t) up u (Zip-up s (frame right g c u) up t z)

swap_back :
    (s : Store) (side : Side) (g : Ptr) (c : Color) (up : Trail) (t u : Tree)
    → Zip s (frame (other side) g c t ∷ up) u
    → Zip s (frame side g c u ∷ up) t
swap_back s left g c up t u z = swap s right g c up u t z
swap_back s right g c up t u z = swap s left g c up u t z

-- A change of the colour of the node above the place.
pub Zip-frame_color :
    (s : Store) (side : Side) (a : Ptr) (c c' : Color) (up : Trail) (t x : Tree)
    → Zip s (frame side a c t ∷ up) x
    → (s' : Store) × (set_color a c' s ≡ done tt s') × Zip s' (frame side a c' t ∷ up) x
Zip-frame_color s left a c c' up t x z =
    let (s', run, z') = Zip-set_color s up x a c c' t (Zip-up s (frame left a c t) up x z) in
    (s', run, Zip-down s' (frame left a c' t) up x z')
Zip-frame_color s right a c c' up t x z =
    let (s', run, z') = Zip-set_color s up t a c c' x (Zip-up s (frame right a c t) up x z) in
    (s', run, Zip-down s' (frame right a c' t) up x z')

-- A change of the colour of the root of the subtree beside the place.
pub Zip-other_color :
    (s : Store) (side : Side) (g : Ptr) (cg : Color) (up : Trail) (t l : Tree) (a : Ptr)
    (c c' : Color) (r : Tree)
    → Zip s (frame side g cg (node l a c r) ∷ up) t
    → (s' : Store) × (set_color a c' s ≡ done tt s')
      × Zip s' (frame side g cg (node l a c' r) ∷ up) t
Zip-other_color s side g cg up t l a c c' r z =
    let (s', run, z') = Zip-set_color s _ l a c c' r (swap s side g cg up t (node l a c r) z) in
    (s', run, swap_back s' side g cg up t (node l a c' r) z')

pub red_node-Spells :
    (s : Store) (p : Ptr) (t : Tree)
    → Spells s.cell p t
    → red_node (root_of t) s ≡ done (is_red (color_of t)) s
unfolding red_node
red_node-Spells s p leaf h = refl
red_node-Spells s p (node l a c r) (ne, cell, sl, sr) =
    let not_null : (a == null) ≡ false = ground arith in rw (not_null, load-done a _ s ne cell)

pub uncle-Zip :
    (s : Store) (side side' : Side) (fa g : Ptr) (cf cg : Color) (t u : Tree) (up : Trail)
    (l : Tree) (n : Ptr) (c : Color) (r : Tree)
    → Zip s (frame side fa cf t ∷ frame side' g cg u ∷ up) (node l n c r)
    → uncle n s ≡ done (root_of u) s
unfolding uncle
uncle-Zip s side left fa g cf cg t u up l n c r z =
    let (fa_ne, fa_cell, st, (g_ne, g_cell, su, above)) = z.around in
    let alone : count fa u ≡ 0 = let h = z.once fa in let e = tally_self fa in omega arith in
    rw (
      Zip-load s _ l n c r z,
      load-done fa _ s fa_ne fa_cell,
      parent-frame side g n (root_of t) cf,
      load-done g _ s g_ne g_cell,
      other_test fa u fa_ne alone,
    )
uncle-Zip s side right fa g cf cg t u up l n c r z =
    let (fa_ne, fa_cell, st, (g_ne, g_cell, su, above)) = z.around in
    rw (
      Zip-load s _ l n c r z,
      load-done fa _ s fa_ne fa_cell,
      parent-frame side g n (root_of t) cf,
      load-done g _ s g_ne g_cell,
      same_test fa,
    )

color-frame : (side : Side) (par h q : Ptr) (c : Color) → (frame_node side par h q c).color ≡ c
color-frame left par h q c = refl
color-frame right par h q c = refl

pub red_node-top :
    (s : Store) (side : Side) (a : Ptr) (c : Color) (up : Trail) (t x : Tree)
    → Zip s (frame side a c t ∷ up) x
    → red_node a s ≡ done (is_red c) s
unfolding red_node
red_node-top s side a c up t x z =
    let (ne, cell, st, above) = z.around in
    let not_null : (a == null) ≡ false = ground arith in
    rw (not_null, load-done a _ s ne cell, color-frame side (top up) (root_of x) (root_of t) c)
