-- ===== src/RbTree/Delete.antt =====
-- c/src/rb_tree.c: deletion of a node, and removal of a subtree.
use artorias.Prelude.{ℕ, zero, suc, false, ◌==◌, ◌&&◌, ◌||◌, not, if◌then◌else◌}
use artorias.RbTree.Store.{
  Ptr, null, red, black, Side, left, right, other, child, Cmd, return, out_of_fuel, ◌>>=◌, ◌>>◌,
  load, get_root, set_root, set_parent, set_color, set_child, adopt, replace, is_red,
  is_null_or_black,
}
use artorias.RbTree.Rotate.{rotate, rotate_left, rotate_right}
use artorias.RbTree.Insert.{rb_tree_insert_to_most, rb_tree_insert_case}

-- `delete_case1`, with `lr` for `_lr1_`; the result is the new `s`.
delete_case1 : Side → Ptr → Ptr → Cmd Ptr
unfolding load set_color rotate_left rotate_right
delete_case1 lr fa s = do
  set_color s black
  set_color fa red
  rotate lr fa
  f ← load fa
  return (child (other lr) f)

delete_case3 : Side → Ptr → Ptr → Cmd Ptr
unfolding load set_color rotate_left rotate_right
delete_case3 lr fa s = do
  sn ← load s
  if child lr sn == null then return tt else set_color (child lr sn) black
  set_color s red
  rotate (other lr) s
  f ← load fa
  return (child (other lr) f)

delete_case4 : Side → Ptr → Ptr → Cmd (Unit {0})
unfolding load set_color rotate_left rotate_right
delete_case4 lr fa s = do
  f ← load fa
  set_color s f.color
  set_color fa black
  sn ← load s
  if child (other lr) sn == null then return tt else set_color (child (other lr) sn) black
  rotate lr fa

-- The lines behind the loop of `rb_tree_delete_case`.
blacken : Ptr → Cmd (Unit {0})
unfolding set_color
blacken n = if n == null then return tt else set_color n black

-- The loop of `rb_tree_delete_case`, whose condition reads `n` before the root.
rb_tree_delete_case : ℕ → Ptr → Ptr → Cmd (Unit {0})
unfolding load get_root is_null_or_black set_color delete_case1 delete_case3 delete_case4 blacken
rb_tree_delete_case zero n fa = λ _. out_of_fuel
rb_tree_delete_case (suc fuel) n fa = do
  n_black ← is_null_or_black n
  root ← get_root
  if n_black && not (n == root)
      then (do
        f ← load fa
        let lr = if n == f.left_child then left else right
        sn ← load (child (other lr) f)
        s ←
            (if is_red sn.color
              then delete_case1 lr fa (child (other lr) f)
              else return (child (other lr) f))
        sn ← load s
        left_black ← is_null_or_black sn.left_child
        both_black ← (if left_black then is_null_or_black sn.right_child else return false)
        if both_black
            then (do set_color s red; f' ← load fa; rb_tree_delete_case fuel fa f'.parent)
            else (do
              far_black ← is_null_or_black (child (other lr) sn)
              s ← (if far_black then delete_case3 lr fa s else return s)
              delete_case4 lr fa s
              root ← get_root
              blacken root))
      else blacken n

remove_node_has_one_child : ℕ → Ptr → Cmd (Unit {0})
unfolding load adopt replace rb_tree_delete_case
remove_node_has_one_child fuel ori = do
  o ← load ori
  let sub = if o.left_child == null then o.right_child else o.left_child
  adopt sub o.parent
  replace o.parent ori sub
  if is_red o.color then return tt else rb_tree_delete_case fuel sub o.parent

swap_node_with_leaf : ℕ → Ptr → Ptr → Cmd (Unit {0})
unfolding load adopt replace set_child set_parent set_color rb_tree_delete_case
swap_node_with_leaf fuel n leaf = do
  before ← load leaf
  nn ← load n
  replace nn.parent n leaf
  l ← load leaf
  let rc = l.right_child
  if l.parent == n then return tt else (do
    adopt rc l.parent
    set_child left l.parent rc
    nn ← load n
    set_child right leaf nn.right_child
    set_parent nn.right_child leaf)
  nn ← load n
  set_parent leaf nn.parent
  set_color leaf nn.color
  set_child left leaf nn.left_child
  set_parent nn.left_child leaf
  if is_red before.color
      then return tt
      else rb_tree_delete_case fuel rc (if l.parent == n then leaf else l.parent)

unfoldable pub swap_node_with_subtree : ℕ → Ptr → Ptr → Cmd (Unit {0})
unfolding load set_root set_color set_parent set_child rb_tree_delete_case
swap_node_with_subtree fuel n sub = do
  nn ← load n
  if nn.parent == null then (do set_root sub; set_color sub black; set_parent sub null) else (do
    replace nn.parent n sub
    set_parent sub nn.parent
    nn ← load n
    sn ← load sub
    if is_red nn.color || is_red sn.color
        then set_color sub black
        else rb_tree_delete_case fuel sub nn.parent)

-- `while (leaf->left != NULL) leaf = leaf->left;`
leftmost : ℕ → Ptr → Cmd Ptr
unfolding load
leftmost zero p = λ _. out_of_fuel
leftmost (suc fuel) p = do
  n ← load p
  if n.left_child == null then return p else leftmost fuel n.left_child

unfoldable pub rb_tree_delete : ℕ → Ptr → Cmd (Unit {0})
unfolding load leftmost remove_node_has_one_child swap_node_with_leaf
rb_tree_delete fuel n = do
  nn ← load n
  if nn.left_child == null || nn.right_child == null
      then remove_node_has_one_child fuel n
      else (do leaf ← leftmost fuel nn.right_child; swap_node_with_leaf fuel n leaf)

-- The two branches of `rb_tree_remove_subtree` for a subtree that is not the whole tree; `lr` is the
-- side of the subtree. The node `fa` is put in again below its other child `sil`.
unfoldable pub reinsert_parent : ℕ → Side → Ptr → Cmd (Unit {0})
unfolding load swap_node_with_subtree rb_tree_insert_to_most rb_tree_insert_case
reinsert_parent fuel lr fa = do
  f ← load fa
  let sil = child (other lr) f
  swap_node_with_subtree fuel fa sil
  rb_tree_insert_to_most lr fuel fa sil
  rb_tree_insert_case fuel fa

unfoldable pub rb_tree_remove_subtree : ℕ → Ptr → Cmd (Unit {0})
unfolding load set_root reinsert_parent
rb_tree_remove_subtree fuel sub = do
  sn ← load sub
  if sn.parent == null then set_root null else (do
    f ← load sn.parent
    if sub == f.left_child
        then reinsert_parent fuel left sn.parent
        else reinsert_parent fuel right sn.parent)
