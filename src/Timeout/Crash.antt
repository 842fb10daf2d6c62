-- ===== src/Timeout/Crash.antt =====
-- c/src/thread.c and c/src/rb_tree.c: a pool on which the removal of a subtree dereferences NULL.
use artorias.Prelude.{
  ℕ, suc, ◌≡◌, ◌≤◌, ◌<◌, ◌∙◌, ap, ◌≢◌, Bool, true, false, some, arith, ◌==◌, ltb, if◌then◌else◌,
}
use artorias.RbTree.Store.{
  Ptr, null, Color, Store, done, fault, left, load, Cmd, run_on, ◌>>=◌, set_root, set_color,
}
use artorias.RbTree.Delete.{swap_node_with_subtree, reinsert_parent, rb_tree_remove_subtree}
use artorias.RbTree.Shape.{mk_node}
use artorias.Timeout.{first_expired, cut_left, asthread_remove_timeout_threads}
use artorias.Timeout.Expired.{load-done}
use artorias.Timeout.Cut.{ne_test}
use artorias.Timeout.Remove.{root_later}

bind_done :
    {A B : Type 0} (m : Cmd A) (k : A → Cmd B) {a : A} (s : Store)
    → m s ≡ done a s
    → ◌>>=◌ m k s ≡ k a s
bind_done m k s e = ap (λ r. run_on r k) e

at_false :
    {A : Type 0} (b : Bool) (m m' : Cmd A) (s : Store) → b ≡ false → (if b then m else m') s ≡ m' s
at_false b m m' s e = rw e

at_true :
    {A : Type 0} (b : Bool) (m m' : Cmd A) (s : Store) → b ≡ true → (if b then m else m') s ≡ m s
at_true b m m' s e = rw e

module _ (et : Ptr → ℕ) (now f : ℕ) (s : Store) (p q ql qr : Ptr) (pc qc : Color) (p_ne : p ≢ null)
    (q_ne : q ≢ null) (at_p : s.cell p ≡ some (mk_node null q null pc))
    (at_q : s.cell q ≡ some (mk_node p ql qr qc)) where
  swap_with_null : swap_node_with_subtree (suc f) p null s ≡ fault
  unfolding swap_node_with_subtree set_root set_color load
  swap_with_null = rw (ne_test p p_ne, at_p)

  reinsert-fault : reinsert_parent (suc f) left p s ≡ fault
  unfolding reinsert_parent
  reinsert-fault = rw (load-done et now p _ s p_ne at_p, swap_with_null)

  remove-fault : rb_tree_remove_subtree (suc f) q s ≡ fault
  unfolding rb_tree_remove_subtree
  remove-fault =
      bind_done (load q) _ s (load-done et now q _ s q_ne at_q)
      ∙ at_false (p == null) _ _ s (ne_test p p_ne)
      ∙ bind_done (load p) _ s (load-done et now p _ s p_ne at_p)
      ∙ at_true (q == q) _ _ s (ground arith)
      ∙ reinsert-fault

  first_expired-here : et q ≤ now → first_expired et now (suc f) q s ≡ done q s
  unfolding first_expired
  first_expired-here come =
      let passed : ltb now (et q) ≡ false = ground arith in rw (ne_test q q_ne, passed)

  cut_left-fault : et q ≤ now → cut_left et now (suc f) p s ≡ fault
  unfolding cut_left
  cut_left-fault come =
      bind_done (load p) _ s (load-done et now p _ s p_ne at_p)
      ∙ bind_done (first_expired et now (suc f) q) _ s (first_expired-here come)
      ∙ ap (λ r. run_on r (λ _ s. done q s))
          (at_false (q == null) _ _ s (ne_test q q_ne) ∙ remove-fault)

-- In a pool whose root has not come to its time, has a left child whose time has come, and has no
-- right child, `asthread_remove_timeout_threads` dereferences NULL, with any fuel above 0.
pub remove_timeout-fault :
    (et : Ptr → ℕ) (now f : ℕ) (s : Store) (q ql qr : Ptr) (pc qc : Color)
    → s.root ≢ null
    → q ≢ null
    → s.cell s.root ≡ some (mk_node null q null pc)
    → s.cell q ≡ some (mk_node s.root ql qr qc)
    → now < et s.root
    → et q ≤ now
    → asthread_remove_timeout_threads et now (suc f) s ≡ fault
remove_timeout-fault et now f s q ql qr pc qc p_ne q_ne at_p at_q later come =
    root_later et now (suc f) s p_ne later
    ∙ cut_left-fault et now f s s.root q ql qr pc qc p_ne q_ne at_p at_q come
