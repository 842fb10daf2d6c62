-- ===== src/RbTree/Add.antt =====
-- c/src/rb_tree.h and c/src/rb_tree.c: `rb_tree_insert` and then `rb_tree_insert_case`, as the callers
-- use them.
use artorias.Prelude.{ℕ, ◌<◌, ◌≡◌, refl, ◌∙◌, ap, subst, ◌≢◌, Bool, false, [], arith, ◌==◌}
use artorias.RbTree.Store.{Ptr, null, red, black, Store, Cmd, put, ◌>>◌, get_root, set_root}
use artorias.RbTree.Shape.{Tree, leaf, node, inorder, mk_node}
use artorias.RbTree.Insert.{rb_tree_insert, rb_tree_insert_case, insert_case_loop, insert_below}
use artorias.RbTree.Trail.{count, Zip, Zip-put, put_here}
use artorias.RbTree.Balance.{color_of, IsRedBlack, Part, black-Fits}
use artorias.RbTree.Repair.{IsRepaired, repair}
use artorias.RbTree.Link.{size, IsFree, IsLinked, descend}
use artorias.RbTree.Sorted.{IsSorted, less, insert, inorder-grow}

-- The two calls of the callers.
abbrev pub add : (Ptr → Ptr → Bool) → ℕ → Ptr → Cmd (Unit {0})
add lt fuel n = rb_tree_insert lt fuel n >> rb_tree_insert_case fuel n

leaf-Part : Part leaf 0
leaf-Part = record { height = refl; balanced = tt; black_root = refl }

rb_tree_insert-IsLinked :
    (lt : Ptr → Ptr → Bool) (fuel : ℕ) (s : Store) (t : Tree) (n : Ptr)
    → Zip s [] t
    → IsRedBlack t
    → color_of t ≡ black
    → n ≢ null
    → count n t ≡ 0
    → size t < fuel
    → IsLinked lt n [] t (rb_tree_insert lt fuel n s)
unfolding rb_tree_insert get_root set_root
rb_tree_insert-IsLinked lt fuel s leaf n z rb black_root ne out enough =
    let new = mk_node null null null red in
    record {
      store = record { root = n; cell = put n new s.cell };
      place = [];
      returns = rw z.at_root;
      linked = record {
        at_root = refl;
        focus = (ne, put_here n new s.cell, tt, tt);
        around = tt;
        once = λ x. ground arith;
      };
      same_tree = refl;
      takes = tt;
      short = omega arith;
    }
rb_tree_insert-IsLinked lt fuel s (node l a c r) n z rb black_root ne out enough =
    let new = mk_node null null null red in
    let s1 : Store = record s { cell = put n new s.cell } in
    let z1 = Zip-put s [] (node l a c r) n new z (omega arith) in
    let not_null : (s.root == null) ≡ false =
      let h = z.focus.0 in let e = z.at_root in ground arith in
    let free : IsFree n s1 [] (node l a c r) = record {
      here = z1;
      not_null = ne;
      apart = omega arith;
      parent = null;
      cell = put_here n new s.cell;
    } in
    let k =
      descend lt n fuel s1 [] (node l a c r) free z.focus.0 enough rb tt
        (black-Fits (node l a c r) [] black_root) in
    record {
      store = k.store;
      place = k.place;
      returns = rw not_null (ap (λ p. insert_below lt fuel n p s1) z.at_root ∙ k.returns);
      linked = k.linked;
      same_tree = k.same_tree;
      takes = k.takes;
      short = k.short;
    }

-- Let the store spell a red-black tree with a black root and every address once, whose nodes stand
-- in the order of their keys. For a node `n`, not NULL and not in the tree, and more fuel than the
-- tree has nodes, `rb_tree_insert` and then `rb_tree_insert_case` return without a bad access; the
-- store then spells, in the same sense, a red-black tree with a black root, whose nodes in order
-- are those of before with `n` put in behind the nodes whose keys are not above its own.
pub add-IsRepaired :
    (key : Ptr → ℕ) (fuel : ℕ) (s : Store) (t : Tree) (n : Ptr)
    → Zip s [] t
    → IsRedBlack t
    → color_of t ≡ black
    → IsSorted key (inorder t)
    → n ≢ null
    → count n t ≡ 0
    → size t < fuel
    → IsRepaired (insert key n (inorder t)) (add (less key) fuel n s)
unfolding rb_tree_insert_case
add-IsRepaired key fuel s t n z rb black_root sorted ne out enough =
    let k = rb_tree_insert-IsLinked (less key) fuel s t n z rb black_root ne out enough in
    let h = k.short in
    let not_null : (n == null) ≡ false = ground arith in
    let repaired =
      repair fuel k.store k.place leaf n leaf 0 k.linked leaf-Part leaf-Part k.takes
        (omega arith) in
    let order = ap inorder k.same_tree ∙ inorder-grow key n t sorted in
    rw (k.returns, not_null)
      (subst (λ xs. IsRepaired xs (insert_case_loop fuel n k.store)) order repaired)
