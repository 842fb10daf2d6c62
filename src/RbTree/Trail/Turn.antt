-- ===== src/RbTree/Trail/Turn.antt =====
-- c/src/rb_tree.c: `rotate_right` and `rotate_left` at a place of a tree.
use artorias.Prelude.{
  ◌+◌, ◌≤◌, ◌<◌, ◌≡◌, refl, ◌∙◌, ◌≢◌, true, false, Option, some, [], ◌∷◌, arith, ◌==◌,
}
use artorias.RbTree.Store.{
  Ptr, null, Color, Node, Side, left, right, other, Cmd, ◌>>=◌, ◌>>◌, Store, done, put, load,
  set_parent, set_child, adopt, replace,
}
use artorias.RbTree.Shape.{Tree, leaf, node, root_of, mk_node, Spells}
use artorias.RbTree.Rotate.{rotate_right, rotate_left}
use artorias.RbTree.Trail.{
  Trail, frame, top, bottom, tally, count, count_trail, frame_node, Around, Zip, Zip-up, Zip-down,
  Spells-same, Around-same, put_here, put_there, count_ne, count_trail_ne, load-done,
}

abbrev Cells : Type 0
Cells = Ptr → Option Node

-- A subtree gets a new parent.
adopt-Spells :
    (s : Store) (p q : Ptr) (t : Tree)
    → Spells s.cell p t
    → ((x : Ptr) → count x t ≤ 1)
    → (c : Cells) × (adopt (root_of t) q s ≡ done tt (record s { cell = c }))
      × Spells c q t
      × ((x : Ptr) → count x t ≡ 0 → c x ≡ s.cell x)
unfolding adopt set_parent
adopt-Spells s p q leaf h once = (s.cell, refl, tt, λ x h. refl)
adopt-Spells s p q (node l a col r) (ne, cell, sl, sr) once =
    let n = mk_node q (root_of l) (root_of r) col in
    let not_null : (a == null) ≡ false = ground arith in
    (
      put a n s.cell,
      rw (not_null, load-done a _ s ne cell),
      (
        ne,
        put_here a n s.cell,
        Spells-same s.cell _ a l
            (λ x h. put_there a x n s.cell (count_ne a x l (ground (arith, once a)) h)) sl,
        Spells-same s.cell _ a r
            (λ x h. put_there a x n s.cell (count_ne a x r (ground (arith, once a)) h)) sr,
      ),
      λ x h. put_there a x n s.cell (λ e. ground arith),
    )

pub same_test : (q : Ptr) → (q == q) ≡ true
same_test q = ground arith

root_ne : (q : Ptr) (t : Tree) → q ≢ null → count q t ≡ 0 → (root_of t == q) ≡ false
root_ne q leaf ne out = ground arith
root_ne q (node l a c r) ne out = ground arith

-- The link above a place gets a new end.
replace-Around :
    (s : Store) (up : Trail) (q p : Ptr)
    → q ≢ null
    → s.root ≡ bottom up q
    → Around s.cell up q
    → ((x : Ptr) → count_trail x up ≤ 1)
    → count_trail q up ≡ 0
    → (s' : Store) × (replace (top up) q p s ≡ done tt s')
      × (s'.root ≡ bottom up p)
      × Around s'.cell up p
      × ((x : Ptr) → count_trail x up ≡ 0 → s'.cell x ≡ s.cell x)
unfolding replace set_child
replace-Around s [] q p q_ne at_root h once out =
    (record { root = p; cell = s.cell }, refl, refl, tt, λ x h. refl)
replace-Around s (frame left a col t ∷ up) q p q_ne at_root (ne, cell, st, above) once out =
    let n = frame_node left (top up) p (root_of t) col in
    let not_null : (a == null) ≡ false = ground arith in
    (
      record s { cell = put a n s.cell },
      rw (not_null, load-done a _ s ne cell, same_test q, load-done a _ s ne cell),
      at_root,
      (
        ne,
        put_here a n s.cell,
        Spells-same s.cell _ a t
            (λ x h. put_there a x n s.cell (count_ne a x t (ground (arith, once a)) h)) st,
        Around-same s.cell _ up a
            (λ x h. put_there a x n s.cell (count_trail_ne a x up (ground (arith, once a)) h))
            above,
      ),
      λ x h. put_there a x n s.cell (λ e. ground arith),
    )
replace-Around s (frame right a col t ∷ up) q p q_ne at_root (ne, cell, st, above) once out =
    let n = frame_node right (top up) p (root_of t) col in
    let not_null : (a == null) ≡ false = ground arith in
    let other : (root_of t == q) ≡ false = root_ne q t q_ne (ground arith) in
    (
      record s { cell = put a n s.cell },
      rw (not_null, load-done a _ s ne cell, other, load-done a _ s ne cell),
      at_root,
      (
        ne,
        put_here a n s.cell,
        Spells-same s.cell _ a t
            (λ x h. put_there a x n s.cell (count_ne a x t (ground (arith, once a)) h)) st,
        Around-same s.cell _ up a
            (λ x h. put_there a x n s.cell (count_trail_ne a x up (ground (arith, once a)) h))
            above,
      ),
      λ x h. put_there a x n s.cell (λ e. ground arith),
    )

-- Two nodes, three subtrees and the trail share no address, and none stands in one of them twice.
abbrev Once : Ptr → Ptr → Tree → Tree → Tree → Trail → Type 0
Once p q x y w up =
    (v : Ptr)
    → tally (v == p) + (tally (v == q) + (count v x + (count v y + (count v w + count_trail v up))))
      ≤ 1

pub tally_self : (p : Ptr) → tally (p == p) ≡ 1
tally_self p = ground arith

pub tally_ne : (v p : Ptr) → tally (v == p) ≡ 0 → v ≢ p
tally_ne v p h e = ground arith

module _ (p q : Ptr) (x y w : Tree) (up : Trail) (o : Once p q x y w up) where
  first_apart : (p ≢ q) × (count p y ≡ 0) × (count p w ≡ 0) × (count_trail p up ≡ 0)
  first_apart =
      let h = o p in
      let e = tally_self p in (tally_ne p q (omega arith), omega arith, omega arith, omega arith)

  second_apart : (q ≢ p) × (count q x ≡ 0) × (count q y ≡ 0) × (count_trail q up ≡ 0)
  second_apart =
      let h = o q in
      let e = tally_self q in (tally_ne q p (omega arith), omega arith, omega arith, omega arith)

  beside :
      (v : Ptr) → 0 < count v x + (count v y + (count v w + count_trail v up)) → (v ≢ p) × (v ≢ q)
  beside v h = let h' = o v in (tally_ne v p (omega arith), tally_ne v q (omega arith))

-- The writes of both functions, for the node `q` and its child `p` on the side `side`; `y` is the
-- child of `p` that moves.
turn : Side → Ptr → Ptr → Ptr → Cmd (Unit {0})
turn side q p y = do
  adopt y q
  set_child side q y
  qn ← load q
  replace qn.parent q p
  set_child (other side) p q
  set_parent p qn.parent
  set_parent q p

pub set_child-frame :
    (side : Side) (a : Ptr) (s : Store) (par h h' q : Ptr) (c : Color)
    → a ≢ null
    → s.cell a ≡ some (frame_node side par h q c)
    → set_child side a h' s
      ≡ done tt (record s { cell = put a (frame_node side par h' q c) s.cell })
unfolding set_child
set_child-frame left a s par h h' q c ne cell = rw (load-done a _ s ne cell)
set_child-frame right a s par h h' q c ne cell = rw (load-done a _ s ne cell)

set_parent-frame :
    (side : Side) (a : Ptr) (s : Store) (par par' h q : Ptr) (c : Color)
    → a ≢ null
    → s.cell a ≡ some (frame_node side par h q c)
    → set_parent a par' s ≡ done tt (record s { cell = put a (frame_node side par' h q c) s.cell })
unfolding set_parent
set_parent-frame left a s par par' h q c ne cell = rw (load-done a _ s ne cell)
set_parent-frame right a s par par' h q c ne cell = rw (load-done a _ s ne cell)

pub parent-frame :
    (side : Side) (par h q : Ptr) (c : Color) → (frame_node side par h q c).parent ≡ par
parent-frame left par h q c = refl
parent-frame right par h q c = refl

module _ (side : Side) (s : Store) (up : Trail) (x y w : Tree) (p q : Ptr) (cp cq : Color)
    (z : Zip s (frame (other side) p cp x ∷ frame side q cq w ∷ up) y) where
  turn-Zip :
      (s' : Store) × (turn side q p (root_of y) s ≡ done tt s')
      × Zip s' (frame side q cq w ∷ frame (other side) p cp x ∷ up) y
  unfolding turn
  turn-Zip =
      let (p_ne, p_cell, sx, (q_ne, q_cell, sw, above)) = z.around in
      let (c1, run1, sy1, same1) = adopt-Spells s p q y z.focus (λ v. omega (arith, z.once v)) in
      let o : Once p q x y w up = λ v. omega (arith, z.once v) in
      let (p_q, p_y, p_w, p_up) = first_apart p q x y w up o in
      let (q_p, q_x, q_y, q_up) = second_apart p q x y w up o in
      let n2 = frame_node side (top up) (root_of y) (root_of w) cq in
      let c2 = put q n2 c1 in
      let around2 : Around c2 up q =
        Around-same s.cell c2 up q
          (λ v h.
            put_there q v n2 c1 (count_trail_ne q v up q_up h) ∙ same1 v (omega (arith, z.once v)))
          above in
      let (s3, run3, root3, around3, same3) =
        replace-Around (record s { cell = c2 }) up q p q_ne z.at_root around2
          (λ v. omega (arith, z.once v)) q_up in
      let n4 = frame_node (other side) q q (root_of x) cp in
      let n5 = frame_node (other side) (top up) q (root_of x) cp in
      let n6 = frame_node side p (root_of y) (root_of w) cq in
      let c4 = put p n4 s3.cell in
      let c5 = put p n5 c4 in
      let c6 = put q n6 c5 in
      let p3 : s3.cell p ≡ some (frame_node (other side) q (root_of y) (root_of x) cp) =
        same3 p p_up ∙ put_there q p n2 c1 p_q ∙ same1 p p_y ∙ p_cell in
      let q5 : c5 q ≡ some n2 =
        put_there p q n5 c4 q_p ∙ put_there p q n4 s3.cell q_p ∙ same3 q q_up ∙ put_here q n2 c1 in
      let keep : (v : Ptr) → v ≢ p → v ≢ q → c6 v ≡ s3.cell v = λ v v_p v_q.
        put_there q v n6 c5 v_q ∙ put_there p v n5 c4 v_p ∙ put_there p v n4 s3.cell v_p in
      let from_c1 : (v : Ptr) → v ≢ p → v ≢ q → count_trail v up ≡ 0 → c6 v ≡ c1 v =
        λ v v_p v_q h. keep v v_p v_q ∙ same3 v h ∙ put_there q v n2 c1 v_q in
      let below : (v : Ptr) → 0 < count v x + count v w → c6 v ≡ s.cell v = λ v h.
        let h' = o v in
        let (v_p, v_q) = beside p q x y w up o v (omega arith) in
        from_c1 v v_p v_q (omega arith) ∙ same1 v (omega arith) in
      (
        record s3 { cell = c6 },
        rw (
          run1,
          set_child-frame side q (record s { cell = c1 }) (top up) p (root_of y) (root_of w) cq q_ne
              (same1 q q_y ∙ q_cell),
          load-done q _ (record s { cell = c2 }) q_ne (put_here q n2 c1),
          parent-frame side (top up) (root_of y) (root_of w) cq,
          run3,
          set_child-frame (other side) p s3 q (root_of y) q (root_of x) cp p_ne p3,
          set_parent-frame (other side) p (record s3 { cell = c4 }) q (top up) q (root_of x) cp p_ne
              (put_here p n4 s3.cell),
          set_parent-frame side q (record s3 { cell = c5 }) (top up) p (root_of y) (root_of w) cq
              q_ne q5,
        ),
        record {
          at_root = root3;
          focus =
              Spells-same c1 c6 q y
                (λ v h.
                  let (v_p, v_q) = beside p q x y w up o v (omega arith) in
                  from_c1 v v_p v_q (omega (arith, o v)))
                sy1;
          around = (
            q_ne,
            put_here q n6 c5,
            Spells-same s.cell c6 q w (λ v h. below v (omega arith)) sw,
            (
              p_ne,
              put_there q p n6 c5 p_q ∙ put_here p n5 c4,
              Spells-same s.cell c6 p x (λ v h. below v (omega arith)) sx,
              Around-same s3.cell c6 up p
                  (λ v h. let (v_p, v_q) = beside p q x y w up o v (omega arith) in keep v v_p v_q)
                  around3,
            ),
          );
          once = λ v. omega (arith, z.once v);
        },
      )

pub rotate_right-Zip :
    (s : Store) (up : Trail) (x y w : Tree) (p q : Ptr) (cp cq : Color)
    → Zip s up (node (node x p cp y) q cq w)
    → (s' : Store) × (rotate_right q s ≡ done tt s') × Zip s' up (node x p cp (node y q cq w))
unfolding rotate_right turn
rotate_right-Zip s up x y w p q cp cq z =
    let (q_ne, q_cell, (p_ne, p_cell, sx, sy), sw) = z.focus in
    let down = Zip-down s (frame left q cq w) up (node x p cp y) z in
    let down' = Zip-down s (frame right p cp x) (frame left q cq w ∷ up) y down in
    let (s', run, z') = turn-Zip left s up x y w p q cp cq down' in
    (
      s',
      rw (load-done q _ s q_ne q_cell, load-done p _ s p_ne p_cell) run,
      Zip-up s' (frame right p cp x) up (node y q cq w) (Zip-up s' (frame left q cq w) _ y z'),
    )

pub rotate_left-Zip :
    (s : Store) (up : Trail) (x y w : Tree) (p q : Ptr) (cp cq : Color)
    → Zip s up (node x p cp (node y q cq w))
    → (s' : Store) × (rotate_left p s ≡ done tt s') × Zip s' up (node (node x p cp y) q cq w)
unfolding rotate_left turn
rotate_left-Zip s up x y w p q cp cq z =
    let (p_ne, p_cell, sx, (q_ne, q_cell, sy, sw)) = z.focus in
    let not_null : (q == null) ≡ false = ground arith in
    let down = Zip-down s (frame right p cp x) up (node y q cq w) z in
    let down' = Zip-down s (frame left q cq w) (frame right p cp x ∷ up) y down in
    let (s', run, z') = turn-Zip right s up w y x q p cq cp down' in
    (
      s',
      rw (load-done p _ s p_ne p_cell, not_null, load-done q _ s q_ne q_cell) run,
      Zip-up s' (frame left q cq w) up (node x p cp y) (Zip-up s' (frame right p cp x) _ y z'),
    )
