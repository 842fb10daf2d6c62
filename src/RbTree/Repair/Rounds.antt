-- ===== src/RbTree/Repair/Rounds.antt =====
-- c/src/rb_tree.c: a round of the loop of `rb_tree_insert_case`, for a red node below a red node.
use artorias.Prelude.{ℕ, suc, ◌≡◌, ◌∷◌, arith}
use artorias.RbTree.Store.{Ptr, red, black, Side, left, right, Store}
use artorias.RbTree.Shape.{Tree, node, root_of}
use artorias.RbTree.Insert.{insert_case_loop}
use artorias.RbTree.Balance.{color_of}
use artorias.RbTree.Trail.{
  Trail, frame, plug_in, count, Zip, Zip-up, Zip-down, Zip-load, Zip-load-top,
}
use artorias.RbTree.Trail.Turn.{
  parent-frame, same_test, tally_self, rotate_right-Zip, rotate_left-Zip,
}
use artorias.RbTree.Repair.Steps.{
  turn_right_side, turn_left_side, other_test, Zip-frame_color, Zip-other_color, red_node-Spells,
  red_node-top, uncle-Zip,
}

-- A red uncle: the parent and the uncle turn black and the grandparent red.
abbrev pub lifted : Side → Ptr → Tree → Tree → Tree
lifted side fa t x = plug_in (frame side fa black t) x

pub recolour :
    (fuel : ℕ) (s : Store) (side side' : Side) (fa g : Ptr) (t : Tree) (ul : Tree) (ua : Ptr)
    (ur : Tree) (up : Trail) (l : Tree) (n : Ptr) (r : Tree)
    → Zip s (frame side fa red t ∷ frame side' g black (node ul ua red ur) ∷ up) (node l n red r)
    → (s' : Store) × (insert_case_loop (suc fuel) n s ≡ insert_case_loop fuel g s')
      × Zip s' (frame side' g red (node ul ua black ur) ∷ up) (lifted side fa t (node l n red r))
unfolding insert_case_loop
recolour fuel s side side' fa g t ul ua ur up l n r z =
    let u = node ul ua red ur in
    let u' = node ul ua black ur in
    let x = node l n red r in
    let z1 = Zip-up s (frame side fa red t) _ x z in
    let (s2, run2, z2) = Zip-frame_color s side fa red black _ t x z in
    let z3 = Zip-up s2 (frame side fa black t) _ x z2 in
    let (s4, run4, z4) = Zip-other_color s2 side' g black up _ ul ua red black ur z3 in
    let z5 = Zip-down s4 (frame side fa black t) _ x z4 in
    let (s6, run6, z6) = Zip-frame_color s4 side' g black red up u' _ z4 in
    let fa_ne = z.around.0 in
    let (g_ne, g_cell, su, above) = z.around.3 in
    (
      s6,
      rw (
        Zip-load s _ l n red r z,
        red_node-top s side fa red _ t x z,
        uncle-Zip s side side' fa g red black t u up l n red r z,
        red_node-Spells s g u su,
        run2,
        run4,
        Zip-load-top s4 side fa black _ t x z5,
        parent-frame side g n (root_of t) black,
        run6,
      ),
      z6,
    )

-- A black uncle: one or two rotations, by the sides on which the node and its parent are.
module _ (fuel : ℕ) (s : Store) (up : Trail) (l : Tree) (n : Ptr) (r : Tree) (fa : Ptr) (t : Tree)
    (g : Ptr) (u : Tree) (u_black : color_of u ≡ black) where
  -- Where the loop goes on, and the tree that it has made.
  abbrev pub Turned : Ptr → Tree → Type 0
  Turned m t' =
      (s' : Store) × (insert_case_loop (suc fuel) n s ≡ insert_case_loop fuel m s') × Zip s' up t'

  pub turn_left-left :
      Zip s (frame left fa red t ∷ frame left g black u ∷ up) (node l n red r)
      → Turned n (node (node l n red r) fa black (node t g red u))
  unfolding insert_case_loop
  turn_left-left z =
      let x = node l n red r in
      let z1 = Zip-up s (frame left fa red t) _ x z in
      let (g_ne, g_cell, su, above) = z1.around in
      let n_t : count n t ≡ 0 = let h = z.once n in let e = tally_self n in omega arith in
      let fa_u : count fa u ≡ 0 = let h = z.once fa in let e = tally_self fa in omega arith in
      let (s', run, z') =
        turn_right_side s up l n red r fa red t g black u
          (Zip-up s (frame left g black u) up _ z1) in
      (
        s',
        rw (
          Zip-load s _ l n red r z,
          red_node-top s left fa red _ t x z,
          uncle-Zip s left left fa g red black t u up l n red r z,
          red_node-Spells s g u su,
          u_black,
          Zip-load-top s left fa red _ t x z,
          Zip-load-top s left g black up u _ z1,
          other_test n t z.focus.0 n_t,
          same_test n,
          other_test fa u z.around.0 fa_u,
          run,
        ),
        z',
      )

  pub turn_right_right :
      Zip s (frame right fa red t ∷ frame right g black u ∷ up) (node l n red r)
      → Turned n (node (node u g red t) fa black (node l n red r))
  unfolding insert_case_loop
  turn_right_right z =
      let x = node l n red r in
      let z1 = Zip-up s (frame right fa red t) _ x z in
      let (g_ne, g_cell, su, above) = z1.around in
      let n_t : count n t ≡ 0 = let h = z.once n in let e = tally_self n in omega arith in
      let fa_u : count fa u ≡ 0 = let h = z.once fa in let e = tally_self fa in omega arith in
      let (s', run, z') =
        turn_left_side s up l n red r fa red t g black u
          (Zip-up s (frame right g black u) up _ z1) in
      (
        s',
        rw (
          Zip-load s _ l n red r z,
          red_node-top s right fa red _ t x z,
          uncle-Zip s right right fa g red black t u up l n red r z,
          red_node-Spells s g u su,
          u_black,
          Zip-load-top s right fa red _ t x z,
          Zip-load-top s right g black up u _ z1,
          same_test n,
          other_test fa u z.around.0 fa_u,
          other_test n t z.focus.0 n_t,
          run,
        ),
        z',
      )

  pub turn_left_right :
      Zip s (frame right fa red t ∷ frame left g black u ∷ up) (node l n red r)
      → Turned fa (node (node t fa red l) n black (node r g red u))
  unfolding insert_case_loop
  turn_left_right z =
      let x = node l n red r in
      let z1 = Zip-up s (frame right fa red t) _ x z in
      let (g_ne, g_cell, su, above) = z1.around in
      let (s2, run2, z2) = rotate_left-Zip s (frame left g black u ∷ up) t l r fa n red red z1 in
      let (s', run, z') =
        turn_right_side s2 up t fa red l n red r g black u
          (Zip-up s2 (frame left g black u) up _ z2) in
      (
        s',
        rw (
          Zip-load s _ l n red r z,
          red_node-top s right fa red _ t x z,
          uncle-Zip s right left fa g red black t u up l n red r z,
          red_node-Spells s g u su,
          u_black,
          Zip-load-top s right fa red _ t x z,
          Zip-load-top s left g black up u _ z1,
          same_test n,
          same_test fa,
          run2,
          Zip-load s2 _ (node t fa red l) n red r z2,
          run,
        ),
        z',
      )

  pub turn_right_left :
      Zip s (frame left fa red t ∷ frame right g black u ∷ up) (node l n red r)
      → Turned fa (node (node u g red l) n black (node r fa red t))
  unfolding insert_case_loop
  turn_right_left z =
      let x = node l n red r in
      let z1 = Zip-up s (frame left fa red t) _ x z in
      let (g_ne, g_cell, su, above) = z1.around in
      let n_t : count n t ≡ 0 = let h = z.once n in let e = tally_self n in omega arith in
      let (s2, run2, z2) = rotate_right-Zip s (frame right g black u ∷ up) l r t n fa red red z1 in
      let (s', run, z') =
        turn_left_side s2 up r fa red t n red l g black u
          (Zip-up s2 (frame right g black u) up _ z2) in
      (
        s',
        rw (
          Zip-load s _ l n red r z,
          red_node-top s left fa red _ t x z,
          uncle-Zip s left right fa g red black t u up l n red r z,
          red_node-Spells s g u su,
          u_black,
          Zip-load-top s left fa red _ t x z,
          Zip-load-top s right g black up u _ z1,
          other_test n t z.focus.0 n_t,
          same_test n,
          same_test fa,
          run2,
          Zip-load s2 _ l n red (node r fa red t) z2,
          run,
        ),
        z',
      )
