-- ===== src/RbTree/Repair.antt =====
-- c/src/rb_tree.c: `rb_tree_insert_case` makes a red-black tree again of one in which the new red node
-- may stand under a red node.
pub mod Steps
pub mod Rounds
use artorias.Prelude.{
  ℕ, zero, suc, ◌+◌, ◌≤◌, ◌<◌, ◌≡◌, refl, sym, ◌∙◌, ap, subst, ◌≢◌, true, false, some, List, [],
  ◌∷◌, ◌++◌, arith, ◌==◌, length, append_assoc,
}
use artorias.RbTree.Store.{
  Ptr, null, Color, red, black, Side, left, right, other, is_red, Store, Run, Cmd, done, get_root,
  set_color, ◌>>=◌,
}
use artorias.RbTree.Shape.{Tree, leaf, node, inorder, root_of}
use artorias.RbTree.Insert.{red_node, insert_case_loop, rb_tree_insert_case}
use artorias.RbTree.Balance.{
  weight, black_height, color_of, IsRedBlack, Takes, Part, plug-four, red-IsRedBlack,
  plug-IsRedBlack, Takes-at, inorder-plug,
}
use artorias.RbTree.Trail.{
  Trail, Frame, frame, frame_node, top, plug, plug_in, count, tally, count_trail, Zip, Zip-up,
  Zip-down, Zip-load, Zip-load-top, Zip-set_color,
}
use artorias.RbTree.Trail.Turn.{
  parent-frame, same_test, tally_self, rotate_right-Zip, rotate_left-Zip,
}
use artorias.RbTree.Repair.Rounds.{
  lifted, recolour, Turned, turn_left-left, turn_right_right, turn_left_right, turn_right_left,
}
use artorias.RbTree.Repair.Steps.{
  turn_right_side, turn_left_side, other_test, Zip-frame_color, Zip-other_color, red_node-Spells,
  red_node-top, uncle-Zip,
}

-- How the loop ends: with a red-black tree, whose nodes stand in the order `xs`.
pub record IsRepaired (xs : List Ptr) (run : Run (Unit {0})) : Type 0 where
  pub store : Store
  pub tree : Tree
  pub returns : run ≡ done tt store
  pub whole : Zip store [] tree
  pub balanced : IsRedBlack tree
  pub black_root : color_of tree ≡ black
  pub order : inorder tree ≡ xs

Zip-whole : (s : Store) (up : Trail) (t : Tree) → Zip s up t → Zip s [] (plug up t)
Zip-whole s [] t z = z
Zip-whole s (f ∷ up) t z = Zip-whole s up (plug_in f t) (Zip-up s f up t z)

-- No place takes a node away.
count-plug : (x : Ptr) (up : Trail) (t : Tree) → count x (plug up t) ≡ count x t + count_trail x up
count-plug x [] t = omega arith
count-plug x (frame left a c r ∷ up) t = omega (arith, count-plug x up (node t a c r))
count-plug x (frame right a c l ∷ up) t = omega (arith, count-plug x up (node l a c t))

-- The line behind the loop.
blacken_root : Cmd (Unit {0})
blacken_root = do root ← get_root; set_color root black

blacken_root-IsRepaired :
    (s : Store) (n : Ptr) (t : Tree)
    → Zip s [] t
    → IsRedBlack t
    → 0 < count n t
    → IsRepaired (inorder t) (blacken_root s)
unfolding blacken_root get_root
blacken_root-IsRepaired s n leaf z rb has = absurd (omega arith)
blacken_root-IsRepaired s n (node l a c r) z (even, below, rl, rr) has =
    let (s', run, z') = Zip-set_color s [] l a c black r z in
    record {
      store = s';
      tree = node l a black r;
      returns = ap (λ p. set_color p black s) z.at_root ∙ run;
      whole = z';
      balanced = (even, tt, rl, rr);
      black_root = refl;
      order = refl;
    }

-- The loop ends at a node without a parent, or with a black one.
under_black :
    (fuel : ℕ) (s : Store) (up : Trail) (l : Tree) (n : Ptr) (c : Color) (r : Tree)
    → Zip s up (node l n c r)
    → IsRedBlack (plug up (node l n c r))
    → red_node (top up) s ≡ done false s
    → IsRepaired (inorder (plug up (node l n c r))) (insert_case_loop (suc fuel) n s)
unfolding insert_case_loop blacken_root
under_black fuel s up l n c r z rb parent =
    let has : 0 < count n (plug up (node l n c r)) =
      let h = count-plug n up (node l n c r) in let e = tally_self n in omega arith in
    let repaired = blacken_root-IsRepaired s n _ (Zip-whole s up _ z) rb has in
    rw (Zip-load s up l n c r z, parent) repaired

after_turn :
    (fuel : ℕ) (s : Store) (up : Trail) (side : Side) (b : Ptr) (o l : Tree) (m : Ptr) (c : Color)
    (r : Tree) (n : Ptr) (xs : List Ptr)
    → (s' : Store) × (insert_case_loop (suc (suc fuel)) n s ≡ insert_case_loop (suc fuel) m s')
      × Zip s' up (plug_in (frame side b black o) (node l m c r))
    → IsRedBlack (plug (frame side b black o ∷ up) (node l m c r))
    → inorder (plug (frame side b black o ∷ up) (node l m c r)) ≡ xs
    → IsRepaired xs (insert_case_loop (suc (suc fuel)) n s)
after_turn fuel s up side b o l m c r n xs (s', run, z) rb e =
    let z' = Zip-down s' (frame side b black o) up (node l m c r) z in
    rw run (
      subst (λ ys. IsRepaired ys (insert_case_loop (suc fuel) m s')) e
        (under_black fuel s' (frame side b black o ∷ up) l m c r z' rb
          (red_node-top s' side b black up o _ z')))

append_regroup_left :
    (ws xs ys zs : List Ptr) (x y z : Ptr)
    → (ws ++ (x ∷ (xs ++ (y ∷ ys)))) ++ (z ∷ zs) ≡ (ws ++ (x ∷ xs)) ++ (y ∷ (ys ++ (z ∷ zs)))
append_regroup_left ws xs ys zs x y z =
    append_assoc ws (x ∷ (xs ++ (y ∷ ys))) (z ∷ zs)
    ∙ ap (λ v. ws ++ (x ∷ v)) (append_assoc xs (y ∷ ys) (z ∷ zs))
    ∙ sym (append_assoc ws (x ∷ xs) (y ∷ (ys ++ (z ∷ zs))))

append_regroup_right :
    (ws xs ys zs : List Ptr) (x y z : Ptr)
    → (ws ++ (x ∷ xs)) ++ (y ∷ (ys ++ (z ∷ zs))) ≡ ws ++ (x ∷ ((xs ++ (y ∷ ys)) ++ (z ∷ zs)))
append_regroup_right ws xs ys zs x y z =
    append_assoc ws (x ∷ xs) (y ∷ (ys ++ (z ∷ zs)))
    ∙ ap (λ v. ws ++ (x ∷ v)) (sym (append_assoc xs (y ∷ ys) (z ∷ zs)))

black_uncle :
    (fuel : ℕ) (s : Store) (side side' : Side) (up : Trail) (l : Tree) (n : Ptr) (r : Tree)
    (fa : Ptr) (t : Tree) (g : Ptr) (u : Tree) (h : ℕ)
    → Zip s (frame side fa red t ∷ frame side' g black u ∷ up) (node l n red r)
    → Part l h
    → Part r h
    → Part t h
    → Part u h
    → Takes up (1 + h)
    → IsRepaired
        (inorder (plug (frame side fa red t ∷ frame side' g black u ∷ up) (node l n red r)))
        (insert_case_loop (suc (suc fuel)) n s)
black_uncle fuel s left left up l n r fa t g u h z pl pr pt pu takes =
    after_turn fuel s up left fa (node t g red u) l n red r n _
      (turn_left-left (suc fuel) s up l n r fa t g u pu.black_root z)
      (plug-four up l r t u n fa g h pl pr pt pu takes)
      (inorder-plug up _ _
        (sym (append_assoc (inorder l ++ (n ∷ inorder r)) (fa ∷ inorder t) (g ∷ inorder u))))
black_uncle fuel s right right up l n r fa t g u h z pl pr pt pu takes =
    after_turn fuel s up right fa (node u g red t) l n red r n _
      (turn_right_right (suc fuel) s up l n r fa t g u pu.black_root z)
      (plug-four up u t l r g fa n h pu pt pl pr takes)
      (inorder-plug up _ _
        (append_assoc (inorder u) (g ∷ inorder t) (fa ∷ (inorder l ++ (n ∷ inorder r)))))
black_uncle fuel s right left up l n r fa t g u h z pl pr pt pu takes =
    after_turn fuel s up left n (node r g red u) t fa red l n _
      (turn_left_right (suc fuel) s up l n r fa t g u pu.black_root z)
      (plug-four up t l r u fa n g h pt pl pr pu takes)
      (inorder-plug up _ _
        (sym (append_regroup_left (inorder t) (inorder l) (inorder r) (inorder u) fa n g)))
black_uncle fuel s left right up l n r fa t g u h z pl pr pt pu takes =
    after_turn fuel s up right n (node u g red l) r fa red t n _
      (turn_right_left (suc fuel) s up l n r fa t g u pu.black_root z)
      (plug-four up u l r t g n fa h pu pl pr pt takes)
      (inorder-plug up _ _
        (append_regroup_right (inorder u) (inorder l) (inorder r) (inorder t) g n fa))

lifted-Part :
    (side : Side) (fa : Ptr) (t l : Tree) (n : Ptr) (r : Tree) (h : ℕ)
    → Part l h
    → Part r h
    → Part t h
    → Part (lifted side fa t (node l n red r)) (1 + h)
lifted-Part left fa t l n r h pl pr pt =
    let e1 = pl.height in
    let e2 = pr.height in
    let e3 = pt.height in
    record {
      height = omega arith;
      balanced = (
        omega arith,
        tt,
        (omega arith, (pl.black_root, pr.black_root), pl.balanced, pr.balanced),
        pt.balanced,
      );
      black_root = refl;
    }
lifted-Part right fa t l n r h pl pr pt =
    let e1 = pl.height in
    let e2 = pr.height in
    let e3 = pt.height in
    record {
      height = omega arith;
      balanced = (
        omega arith,
        tt,
        pt.balanced,
        (omega arith, (pl.black_root, pr.black_root), pl.balanced, pr.balanced),
      );
      black_root = refl;
    }

inorder-lifted :
    (side : Side) (fa : Ptr) (t x : Tree)
    → inorder (lifted side fa t x) ≡ inorder (plug_in (frame side fa red t) x)
inorder-lifted left fa t x = refl
inorder-lifted right fa t x = refl

-- The uncle turns black.
blackened-Part :
    (ul : Tree) (ua : Ptr) (ur : Tree) (h : ℕ)
    → black_height (node ul ua red ur) ≡ h
    → IsRedBlack (node ul ua red ur)
    → Part (node ul ua black ur) (1 + h)
blackened-Part ul ua ur h e (even, below, rl, rr) = record {
  height = omega arith;
  balanced = (even, tt, rl, rr);
  black_root = refl;
}

-- The node is red, and its parent may be red as well.
pub repair :
    (fuel : ℕ) (s : Store) (up : Trail) (l : Tree) (n : Ptr) (r : Tree) (h : ℕ)
    → Zip s up (node l n red r)
    → Part l h
    → Part r h
    → Takes up h
    → length up < fuel
    → IsRepaired (inorder (plug up (node l n red r))) (insert_case_loop fuel n s)
unfolding red_node
repair zero s up l n r h z pl pr takes enough = absurd (omega arith)
repair (suc fuel) s [] l n r h z pl pr takes enough =
    under_black fuel s [] l n red r z (red-IsRedBlack l n r h pl pr) refl
repair (suc fuel) s (frame side a black t ∷ up) l n r h z pl pr takes enough =
    under_black fuel s (frame side a black t ∷ up) l n red r z
      (plug-IsRedBlack (frame side a black t ∷ up) (node l n red r) (red-IsRedBlack l n r h pl pr)
        (Takes-at (frame side a black t ∷ up) _ _ (let e = pl.height in omega arith) takes) refl)
      (red_node-top s side a black up t _ z)
repair (suc fuel) s (frame side a red t ∷ []) l n r h z pl pr (even, rb, (b, top_black), takes)
      enough =
    absurd cc
repair (suc fuel) s (frame side a red t ∷ frame side' g red u ∷ up) l n r h z pl pr
      (even, rb, (b, top_black), takes) enough =
    absurd cc
repair (suc zero) s (frame side fa red t ∷ frame side' g black u ∷ up) l n r h z pl pr takes
      enough =
    absurd (omega arith)
repair (suc (suc fuel)) s (frame side fa red t ∷ frame side' g black leaf ∷ up) l n r h z pl pr
      (even, rb, (b, top_black), (even', rb', b', takes)) enough =
    black_uncle fuel s side side' up l n r fa t g leaf h z pl pr
      (record { height = even; balanced = rb; black_root = b })
      (record { height = omega arith; balanced = tt; black_root = refl })
      (Takes-at up _ _ (omega arith) takes)
repair (suc (suc fuel)) s (frame side fa red t ∷ frame side' g black (node ul ua black ur) ∷ up) l n
      r h z pl pr (even, rb, (b, top_black), (even', rb', b', takes)) enough =
    black_uncle fuel s side side' up l n r fa t g (node ul ua black ur) h z pl pr
      (record { height = even; balanced = rb; black_root = b })
      (record { height = omega arith; balanced = rb'; black_root = refl })
      (Takes-at up _ _ (omega arith) takes)
repair (suc (suc fuel)) s (frame side fa red t ∷ frame left g black (node ul ua red ur) ∷ up) l n r
      h z pl pr (even, rb, (b, top_black), (even', rb', b', takes)) enough =
    let (s', run, z') = recolour (suc fuel) s side left fa g t ul ua ur up l n r z in
    let u' = node ul ua black ur in
    let x = lifted side fa t (node l n red r) in
    let again =
      repair (suc fuel) s' up x g u' (1 + h) (Zip-up s' (frame left g red u') up x z')
        (lifted-Part side fa t l n r h pl pr
          (record { height = even; balanced = rb; black_root = b }))
        (blackened-Part ul ua ur h (omega arith) rb') (Takes-at up _ _ (omega arith) takes)
        (omega arith) in
    let order =
      inorder-plug up (node x g red u') _
        (ap (λ xs. xs ++ (g ∷ inorder u')) (inorder-lifted side fa t (node l n red r))) in
    rw run (subst (λ xs. IsRepaired xs (insert_case_loop (suc fuel) g s')) order again)
repair (suc (suc fuel)) s (frame side fa red t ∷ frame right g black (node ul ua red ur) ∷ up) l n r
      h z pl pr (even, rb, (b, top_black), (even', rb', b', takes)) enough =
    let (s', run, z') = recolour (suc fuel) s side right fa g t ul ua ur up l n r z in
    let u' = node ul ua black ur in
    let x = lifted side fa t (node l n red r) in
    let again =
      repair (suc fuel) s' up u' g x (1 + h) (Zip-up s' (frame right g red u') up x z')
        (blackened-Part ul ua ur h (omega arith) rb')
        (lifted-Part side fa t l n r h pl pr
          (record { height = even; balanced = rb; black_root = b }))
        (Takes-at up _ _ (omega arith) takes) (omega arith) in
    let order =
      inorder-plug up (node u' g red x) _
        (ap (λ xs. inorder u' ++ (g ∷ xs)) (inorder-lifted side fa t (node l n red r))) in
    rw run (subst (λ xs. IsRepaired xs (insert_case_loop (suc fuel) g s')) order again)
