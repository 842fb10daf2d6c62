-- ===== src/RbTree/Tests.antt =====
-- c/src/rb_tree.c: a tree of two nodes, each with its address as its key.
use artorias.Prelude.{ℕ, refl, none, some, arith, ◌==◌, if◌then◌else◌, ◌∷◌, []}
use artorias.RbTree.Store.{Ptr, null, red, black, Store}
use artorias.RbTree.Shape.{Tree, leaf, node, mk_node}
use artorias.RbTree.Trail.{Zip}
use artorias.RbTree.Repair.{IsRepaired}
use artorias.RbTree.Sorted.{less}
use artorias.RbTree.Add.{add, add-IsRepaired}
use artorias.RbTree.Search.{IsFound, has_key, goes_left, rb_tree_find-IsFound}
use artorias.RbTree.Insert.{rb_tree_find}

abbrev key : Ptr → ℕ
key p = p

abbrev tree : Tree
tree = node leaf 10 black (node leaf 20 red leaf)

abbrev store : Store
store = record {
  root = 10;
  cell = λ p.
      if p == 10
      then some (mk_node null null 20 black)
      else if p == 20
      then some (mk_node 10 null null red)
      else none;
}

abbrev store-Zip : Zip store [] tree
store-Zip = record {
  at_root = refl;
  focus = ((λ e. absurd (omega arith)), refl, tt, ((λ e. absurd (omega arith)), refl, tt, tt));
  around = tt;
  once = λ x. ground arith;
}

-- The new node stands under a red node, with no uncle: a rotation.
add-IsRepaired_example : IsRepaired (10 ∷ 20 ∷ 30 ∷ []) (add (less key) 3 30 store)
add-IsRepaired_example =
    add-IsRepaired key 3 store tree 30 store-Zip (refl, tt, tt, (refl, (refl, refl), tt, tt)) refl
      ((omega arith, tt), (tt, tt)) (λ e. absurd (omega arith)) refl (omega arith)

rb_tree_find-IsFound_example :
    IsFound key 20 store tree (rb_tree_find (has_key key 20) (goes_left key 20) 3 store)
rb_tree_find-IsFound_example =
    rb_tree_find-IsFound key 20 3 store tree store-Zip ((omega arith, tt), (tt, tt)) (omega arith)
