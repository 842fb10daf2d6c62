-- ===== src/Timeout/Cut.antt =====
-- c/src/thread.c: what the branch for a due root leaves in the store.
use artorias.Prelude.{ℕ, ◌≡◌, sym, ◌∙◌, ◌≢◌, true, false, Option, some, arith, ◌==◌}
use artorias.RbTree.Store.{Ptr, null, Color, black, Node, Store, Run, done, put}
use artorias.RbTree.Shape.{Tree, leaf, node, holds, root_of, mk_node, Spells, Spells-put, IsSimple}
use artorias.Timeout.{last_expired, cut_root}
use artorias.Timeout.Split.{expired, taken, kept, last, rest, kept-blackened-rest}
use artorias.Timeout.Expired.{load-done, Cut, Spells-taken, last_out, IsSimple-rest}

-- What `asthread_remove_timeout_threads` leaves: the tree at the pool's root, and the tree returned.
pub record IsCut (et : Ptr → ℕ) (now : ℕ) (t : Tree) (r : Run Ptr) : Type 0 where
  pub store : Store
  pub returns : r ≡ done (root_of t) store
  pub pool_root : store.root ≡ root_of (kept et now t)
  pub taken_tree : Spells store.cell null (taken et now t)
  pub kept_tree : Spells store.cell null (kept et now t)

put_self : (p : Ptr) (n : Node) (c : Ptr → Option Node) → put p n c p ≡ some n
unfolding put
put_self p n c = ground arith

put_ne : (p q : Ptr) (n : Node) (c : Ptr → Option Node) → q ≢ p → put p n c q ≡ c q
unfolding put
put_ne p q n c ne = ground arith

pub ne_test : (x : Ptr) → x ≢ null → (x == null) ≡ false
ne_test x ne = ground arith

outside_parts :
    (y : Ptr) (l : Tree) (x : Ptr) (col : Color) (r : Tree)
    → holds y (node l x col r) ≡ false
    → (y ≢ x) × (holds y l ≡ false) × (holds y r ≡ false)
outside_parts y l x col r out = ((λ q. ground arith), ground arith, ground arith)

module _ (et : Ptr → ℕ) (now fuel : ℕ) (t : Tree) (s : Store) (simple : IsSimple t)
    (e : expired et now t ≡ true) (spells : Spells s.cell null t)
    (found : last_expired et now fuel (root_of t) s ≡ done (last et now t) s)
    (k : Cut et now s.cell t) where
  abbrev b : Ptr
  b = last et now t

  cut_cell :
      (p l r : Ptr) (col : Color) (p' l' r' : Ptr) (col' : Color)
      → s.cell b ≡ some (mk_node p l r col)
      → s.cell b ≡ some (mk_node p' l' r' col')
      → some (mk_node p l null col) ≡ some (mk_node p' l' null col')
  cut_cell p l r col p' l' r' col' h h' = ground arith

  pub IsCut-leaf : rest et now t ≡ leaf → IsCut et now t (cut_root et now fuel (root_of t) s)
  unfolding cut_root
  IsCut-leaf none_left =
      let cell : s.cell b ≡ some (mk_node k.parent k.lc null k.col) = rw none_left at k.cell in
      let c' = put b (mk_node k.parent k.lc null k.col) s.cell in
      let kept_leaf : kept et now t ≡ leaf = rw (kept-blackened-rest et now t, none_left) in
      record {
        store = record { root = null; cell = c' };
        returns = rw (
          found,
          load-done et now b _ s k.ne_null cell,
          load-done et now b _ (record { root = null; cell = s.cell }) k.ne_null cell,
        );
        pool_root = rw kept_leaf;
        taken_tree =
            Spells-taken et now s.cell c' null t simple e spells
              (λ x h ne out. put_ne b x _ s.cell ne)
              (λ p l r col h.
                put_self b _ s.cell
                ∙ cut_cell k.parent k.lc (root_of (rest et now t)) k.col p l r col k.cell h);
        kept_tree = rw kept_leaf tt;
      }

  pub IsCut-node :
      (l : Tree) (x : Ptr) (col : Color) (r : Tree)
      → rest et now t ≡ node l x col r
      → IsCut et now t (cut_root et now fuel (root_of t) s)
  unfolding cut_root
  IsCut-node l x col r some_left =
      let (ne, below, sl, sr) : Spells s.cell b (node l x col r) = rw some_left at k.below in
      let cell : s.cell b ≡ some (mk_node k.parent k.lc x k.col) = rw some_left at k.cell in
      let n1 = mk_node null (root_of l) (root_of r) col in
      let n2 = mk_node null (root_of l) (root_of r) black in
      let nb = mk_node k.parent k.lc null k.col in
      let c1 = put x n1 s.cell in
      let c2 = put x n2 c1 in
      let c' = put b nb c2 in
      let out : holds b (node l x col r) ≡ false = rw some_left at (last_out et now t simple e) in
      let (x_ne, b_l, b_r) = outside_parts b l x col r out in
      let (x_l, x_r, apart, il, ir) : IsSimple (node l x col r) =
        rw some_left at (IsSimple-rest et now t simple) in
      let kept_node : kept et now t ≡ node l x black r =
        rw (kept-blackened-rest et now t, some_left) in
      let not_null : (x == null) ≡ false = ne_test x ne in
      let s1 : Store = record { root = x; cell = s.cell } in
      let s2 : Store = record { root = x; cell = c1 } in
      let s3 : Store = record { root = x; cell = c2 } in
      let cell3 : c2 b ≡ some (mk_node k.parent k.lc x k.col) =
        put_ne x b n2 c1 x_ne ∙ put_ne x b n1 s.cell x_ne ∙ cell in
      record {
        store = record { root = x; cell = c' };
        returns = rw (
          found,
          load-done et now b _ s k.ne_null cell,
          not_null,
          load-done et now x _ s1 ne below,
          load-done et now x n1 s2 ne (put_self x n1 s.cell),
          load-done et now b _ s3 k.ne_null cell3,
        );
        pool_root = rw kept_node;
        taken_tree =
            Spells-taken et now s.cell c' null t simple e spells
              (λ y h ne' out.
                let out' : holds y (node l x col r) ≡ false = rw some_left at out in
                let yx : y ≢ x = (outside_parts y l x col r out').0 in
                put_ne b y nb c2 ne' ∙ put_ne x y n2 c1 yx ∙ put_ne x y n1 s.cell yx)
              (λ p l' r' col' h.
                put_self b _ c2 ∙ cut_cell k.parent k.lc x k.col p l' r' col' cell h);
        kept_tree = rw kept_node (
          ne,
          put_ne b x nb c2 (λ q. x_ne (sym q)) ∙ put_self x n2 c1,
          Spells-cut l b_l x_l sl,
          Spells-cut r b_r x_r sr,
        );
      }
    where
      Spells-cut :
          (t' : Tree)
          → holds b t' ≡ false
          → holds x t' ≡ false
          → Spells s.cell x t'
          → Spells
              (put b (mk_node k.parent k.lc null k.col) (
                put x
                  (mk_node null (root_of l) (root_of r) black)
                  (put x (mk_node null (root_of l) (root_of r) col) s.cell)))
              x
              t'
      Spells-cut t' b_out x_out h =
          Spells-put _ b x _ t' b_out (Spells-put _ x x _ t' x_out (Spells-put _ x x _ t' x_out h))
