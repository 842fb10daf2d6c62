-- ===== src/World/Travel.antt =====
-- c/src/rb_tree.h: the macro `rb_tree_postorder_travel`, which takes the tree apart while it visits it.
-- c/src/dlist.h: the macro `dlist_pos_travel`.
use artorias.Prelude.{ℕ, zero, suc, not, some, ◌==◌, if◌then◌else◌}
use artorias.RbTree.Store.{Ptr, null, Node}
use artorias.Dlist
use artorias.World.{Act, crash, ◌>>=◌, ◌>>◌, pure, give_up, gets, modify, present, update}

unfoldable pub get_node : Ptr → Act Node
unfolding ◌>>=◌ gets present
get_node p = if p == null then (λ _. crash) else (do n ← gets (λ w. w.cells p); present n)

unfoldable pub put_node : Ptr → Node → Act (Unit {0})
unfolding modify
put_node p n = modify (λ w. record w { cells = update w.cells p (some n) })

-- `fa`'s link to `tn` is set to NULL, where there is a `fa`.
unfoldable pub unlink : Ptr → Ptr → Act (Unit {0})
unfolding ◌>>=◌ get_node put_node pure
unlink tn fa = if fa == null then pure tt else (do
  f ← get_node fa
  if tn == f.left_child
      then put_node fa (record f { left_child = null })
      else put_node fa (record f { right_child = null }))

-- The loop at the node `tn`.
unfoldable pub rb_tree_postorder_travel : (Ptr → Act (Unit {0})) → ℕ → Ptr → Act (Unit {0})
unfolding ◌>>=◌ get_node unlink pure give_up
rb_tree_postorder_travel func zero tn = give_up
rb_tree_postorder_travel func (suc fuel) tn = if tn == null then pure tt else (do
  n ← get_node tn
  if not (n.left_child == null)
      then rb_tree_postorder_travel func fuel n.left_child
      else if not (n.right_child == null)
      then rb_tree_postorder_travel func fuel n.right_child
      else (do unlink tn n.parent; func tn; rb_tree_postorder_travel func fuel n.parent))

unfoldable pub get_link : Ptr → Act Dlist.Node
unfolding ◌>>=◌ gets present
get_link p = if p == null then (λ _. crash) else (do n ← gets (λ w. w.nodes p); present n)

-- The loop of `dlist_pos_travel` at the node `dln`; the next node is read before the call.
unfoldable pub dlist_pos_travel : (Ptr → Act (Unit {0})) → ℕ → Ptr → Act (Unit {0})
unfolding ◌>>=◌ get_link pure give_up
dlist_pos_travel func zero dln = give_up
dlist_pos_travel func (suc fuel) dln =
    if dln == null
    then pure tt
    else (do n ← get_link dln; func dln; dlist_pos_travel func fuel n.next)
