-- ===== src/World/Visit.antt =====
-- c/src/rb_tree.h: what a visit of a tree in postorder keeps.
use artorias.Prelude.{ℕ, zero, suc, refl, not, ◌==◌}
use artorias.RbTree.Store.{Ptr, null, Node}
use artorias.World.{World, Act}
use artorias.World.Travel.{get_node, put_node, unlink, rb_tree_postorder_travel}
use artorias.World.Calm.{Keeps-Calm, Calm, IsCalm, IsCalm-modify, calm_rules}
use artorias.World.Keeps.{Keeps, Keeps-pure, Keeps-give_up, Keeps-if, Keeps-bind}

get_node-IsCalm : (p : Ptr) → IsCalm (get_node p)
unfolding get_node
get_node-IsCalm p = search calm_rules

put_node-IsCalm : (p : Ptr) (n : Node) → IsCalm (put_node p n)
unfolding put_node
put_node-IsCalm p n = IsCalm-modify _ (λ w. refl) (λ w. refl)

unlink-IsCalm : (tn fa : Ptr) → IsCalm (unlink tn fa)
unfolding unlink
unlink-IsCalm tn fa = search (calm_rules, get_node-IsCalm, put_node-IsCalm)

module _ (P : World → Type 0) (stable : (w w' : World) → Calm w w' → P w → P w') where
  pub rb_tree_postorder_travel-Keeps :
      (func : Ptr → Act (Unit {0}))
      → ((p : Ptr) → Keeps P (func p))
      → (fuel : ℕ) (tn : Ptr) → Keeps P (rb_tree_postorder_travel func fuel tn)
  unfolding rb_tree_postorder_travel
  rb_tree_postorder_travel-Keeps func each zero tn = Keeps-give_up
  rb_tree_postorder_travel-Keeps func each (suc fuel) tn =
      let again : (p : Ptr) → Keeps P (rb_tree_postorder_travel func fuel p) =
        rb_tree_postorder_travel-Keeps func each fuel in
      Keeps-if (tn == null) _ _ (Keeps-pure tt) (
        Keeps-bind (get_node tn) _ (Keeps-Calm P stable _ (get_node-IsCalm tn)) (λ n.
          Keeps-if (not (n.left_child == null)) _ _ (again n.left_child) (
            Keeps-if (not (n.right_child == null)) _ _ (again n.right_child) (
              Keeps-bind (unlink tn n.parent) _ (Keeps-Calm P stable _ (unlink-IsCalm tn n.parent))
                (λ _.
                  Keeps-bind (func tn) (λ _. rb_tree_postorder_travel func fuel n.parent) (each tn)
                    (λ _. again n.parent))))))
