-- ===== src/Thread/Armed.antt =====
-- c/src/thread.c: `asthread_res_ev_del`, and the resources that are registered for events.
use artorias.Prelude.{
  ℕ, zero, suc, ◌≡◌, sym, ap, ◌∙◌, inl, inr, Bool, true, false, some, ◌==◌, arith, Bool-cases,
}
use artorias.RbTree.Store.{Ptr, null}
use artorias.World.{Res, idle, World, update, get_thread, get_res, put_res, modify}
use artorias.World.Travel.{get_link, dlist_pos_travel}
use artorias.World.Keeps.{
  Ensures, Ensures-bind, Ensures-if, Ensures-pure, Ensures-get_res, Keeps, Keeps-bind, Keeps-if,
  Keeps-pure, Keeps-give_up, Keeps-Ensures, keeps_rules,
}
use artorias.Thread.{is_ev, set_events, asthread_res_ev_del, asthread_remove_res_from_epfd}

-- The resource at `p` is registered for events.
abbrev pub IsArmed : Ptr → World → Type 0
IsArmed p w = (r : Res) × (w.ress p ≡ some r) × (is_ev r.status ≡ true)

module _ (p : Ptr) where
  get_link-IsArmed : (q : Ptr) → Keeps (IsArmed p) (get_link q)
  unfolding get_link
  get_link-IsArmed q = search keeps_rules

  get_thread-IsArmed : (q : Ptr) → Keeps (IsArmed p) (get_thread q)
  unfolding get_thread
  get_thread-IsArmed q = search keeps_rules

  -- A write of a resource that is not registered.
  other :
      (w : World) (q : Ptr) (r u : Res)
      → w.ress q ≡ some r
      → is_ev r.status ≡ false
      → IsArmed p w
      → IsArmed p (record w { ress = update w.ress q (some u) })
  unfolding update
  other w q r u at not_armed (s, e, armed) = elim (Bool-cases (p == q)) [
    | inl here ↦
        let same_place : p ≡ q = ground arith in
        let same : some s ≡ some r = sym e ∙ ap w.ress same_place ∙ at in
        let same_res : s ≡ r = ground arith in
        let armed' : is_ev r.status ≡ true =
          ap (λ (x : Res). is_ev x.status) (sym same_res) ∙ armed in
        cc
    | inr away ↦ (s, rw away e, armed)
  ]

  module _ (ctl : ℕ → ℕ → Bool) where
    set_events-IsArmed :
        (q : Ptr) (r : Res)
        → is_ev r.status ≡ false
        → Ensures
            (λ w. IsArmed p w × (w.ress q ≡ some r))
            (set_events ctl q 0 idle)
            (λ a. IsArmed p)
    unfolding set_events put_res modify
    set_events-IsArmed q r not_armed =
        Ensures-bind (λ u w. (IsArmed p w × (w.ress q ≡ some r)) × (w.ress q ≡ some u)) (get_res q)
          _ (Ensures-get_res _ q)
          (λ u.
            Ensures-if _ _ (ctl u.fd 0) _ _
              (λ done. record { at = λ w h. other w q r _ h.0.1 not_armed h.0.0 })
              (λ failed. Ensures-pure _ _ tt (λ w h. h.0.0)))

    asthread_res_ev_del-IsArmed : (q : Ptr) → Keeps (IsArmed p) (asthread_res_ev_del ctl q)
    unfolding asthread_res_ev_del
    asthread_res_ev_del-IsArmed q = Keeps-Ensures _ (
        Ensures-bind (λ r w. IsArmed p w × (w.ress q ≡ some r)) (get_res q) _
          (Ensures-get_res (IsArmed p) q)
          (λ r.
            Ensures-if _ _ (is_ev r.status) _ _ (λ armed. Ensures-pure _ _ tt (λ w h. h.0))
              (λ not_armed. set_events-IsArmed q r not_armed)))

    travel-IsArmed :
        (fuel : ℕ) (q : Ptr) → Keeps (IsArmed p) (dlist_pos_travel (asthread_res_ev_del ctl) fuel q)
    unfolding dlist_pos_travel
    travel-IsArmed zero q = Keeps-give_up
    travel-IsArmed (suc fuel) q = Keeps-if (q == null) _ _ (Keeps-pure tt) (
        Keeps-bind _ _ (get_link-IsArmed q) (λ n.
          Keeps-bind (asthread_res_ev_del ctl q)
            (λ _. dlist_pos_travel (asthread_res_ev_del ctl) fuel n.next)
            (asthread_res_ev_del-IsArmed q) (λ _. travel-IsArmed fuel n.next)))

    -- A resource that is registered for events stays so: wherever `asthread_remove_res_from_epfd`
    -- of any thread ends, the resource has the status for events still.
    pub asthread_remove_res_from_epfd-IsArmed :
        (fuel : ℕ) (th : Ptr) → Keeps (IsArmed p) (asthread_remove_res_from_epfd ctl fuel th)
    unfolding asthread_remove_res_from_epfd
    asthread_remove_res_from_epfd-IsArmed fuel th =
        Keeps-bind _ _ (get_thread-IsArmed th) (λ t. travel-IsArmed fuel t.head)
