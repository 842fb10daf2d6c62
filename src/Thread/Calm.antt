-- ===== src/Thread/Calm.antt =====
-- c/src/thread.c: the functions that leave the stopped threads and their list alone.
use artorias.Prelude.{
  ℕ, zero, suc, ◌≡◌, refl, ◌∙◌, ap, inl, inr, Bool, Option, none, some, ◌∷◌, ◌==◌, arith,
  Bool-cases,
}
use artorias.RbTree.Store.{Ptr, null, Run, done, fault, out_of_fuel}
use artorias.RbTree.Delete.{rb_tree_delete}
use artorias.Dlist.{Dlist}
use artorias.World.{
  Thread, ResStatus, idle, ev, PoolName, io_pool, sleep_pool, World, Act, continue, ◌>>=◌, pure,
  gets, modify, present, update, get_thread, put_thread, on_pool, on_list, after_list, after_tree,
  root_of,
}
use artorias.World.Travel.{get_link, dlist_pos_travel}
use artorias.World.Calm.{
  Calm, Calm-same, IsCalm, IsCalm-bind, IsCalm-give_up, IsCalm-if, IsCalm-modify, IsCalm-pure, Like,
  Like-refl, calm_rules,
}
use artorias.World.Keeps.{Holds}
use artorias.Thread.{
  free_resources, asthread_th_free, del_from, insert_node, dlist_node_init,
  asthread_th_del_from_pool, asthread_res_init, asthread_res_add_to_th, set_events,
  asthread_res_ev_init, asthread_res_ev_add, asthread_res_ev_del, asthread_remove_res_from_epfd,
}

-- One thread has been written, and is like it was.
pub Calm-update :
    (w w' : World) (p : Ptr) (t u : Thread)
    → w.threads p ≡ some t
    → Like (some t) (some u)
    → w'.stop ≡ w.stop
    → w'.threads ≡ update w.threads p (some u)
    → Calm w w'
unfolding update
Calm-update w w' p t u at like s e = record {
  stop = s;
  threads = λ q. elim (Bool-cases (q == p)) [
    | inl here ↦
        let same : q ≡ p = ground arith in
        let old : w.threads q ≡ some t = ap w.threads same ∙ at in rw (e, here, old) like
    | inr there ↦ rw (e, there) (Like-refl (w.threads q))
  ];
}

-- A command that starts with a thread, for each thread that may be there.
pub IsCalm-with_thread :
    {A : Type 0} (p : Ptr) (f : Thread → Act A)
    → ((t : Thread) (w : World) → w.threads p ≡ some t → Holds (λ a w'. Calm w w') (f t w))
    → IsCalm (get_thread p >>= f)
unfolding ◌>>=◌ get_thread gets present
IsCalm-with_thread {A} p f each = record {
  at = λ w. elim (Bool-cases (p == null)) [
    | inl nowhere ↦ rw nowhere tt
    | inr somewhere ↦ rw somewhere (found w (w.threads p) refl)
  ];
}
  where
    found :
        (w : World) (o : Option Thread)
        → w.threads p ≡ o
        → Holds (λ a w'. Calm w w') ((present o >>= f) w)
    found w none e = tt
    found w (some t) e = each t w e

module _ (fuel : ℕ) (th : Ptr) where
  after_delete :
      (t : Thread) (w : World) (q : PoolName) (r : Run (Unit {0}))
      → w.threads th ≡ some t
      → Holds
          (λ a w'. Calm w w')
          (continue (after_tree q w r) (λ _. put_thread th (some (record t { pool = none }))))
  unfolding put_thread
  after_delete t w io_pool (done a s) e = Calm-update w _ th t _ e (refl, λ h. refl) refl refl
  after_delete t w sleep_pool (done a s) e = Calm-update w _ th t _ e (refl, λ h. refl) refl refl
  after_delete t w q fault e = tt
  after_delete t w q out_of_fuel e = tt

  del_from-Calm :
      (t : Thread) (o : Option PoolName) (w : World)
      → w.threads th ≡ some t
      → Holds (λ a w'. Calm w w') (del_from fuel th t o w)
  unfolding ◌>>=◌ on_pool pure
  del_from-Calm t none w e = Calm-same w w refl refl
  del_from-Calm t (some q) w e =
      after_delete t w q (rb_tree_delete fuel th (record { root = root_of q w; cell = w.cells })) e

  pub asthread_th_del_from_pool-IsCalm : IsCalm (asthread_th_del_from_pool fuel th)
  unfolding asthread_th_del_from_pool
  asthread_th_del_from_pool-IsCalm =
      IsCalm-with_thread th (λ t. del_from fuel th t t.pool) (λ t w e. del_from-Calm t t.pool w e)

pub insert_node-IsCalm : (fuel : ℕ) (th : Ptr) (q : PoolName) → IsCalm (insert_node fuel th q)
unfolding insert_node
insert_node-IsCalm fuel th q = search calm_rules

after_list-Calm :
    (th : Ptr) (t : Thread) (w : World) (o : Option Dlist)
    → w.threads th ≡ some t
    → Holds (λ a w'. Calm w w') (after_list th t w o)
after_list-Calm th t w none e = tt
after_list-Calm th t w (some d) e = Calm-update w _ th t _ e (refl, λ h. h) refl refl

pub on_list-IsCalm :
    (th : Ptr) (f : Dlist → Option Dlist) → IsCalm (get_thread th >>= λ t. on_list th t f)
unfolding on_list
on_list-IsCalm th f =
    IsCalm-with_thread th (λ t. on_list th t f)
      (λ t w e.
        after_list-Calm th t w (f (record { head = t.head; tail = t.tail; cell = w.nodes })) e)

IsCalm-get_link : (p : Ptr) → IsCalm (get_link p)
unfolding get_link
IsCalm-get_link p = search calm_rules

dlist_pos_travel-IsCalm :
    (func : Ptr → Act (Unit {0})) (fuel : ℕ) (p : Ptr)
    → ((q : Ptr) → IsCalm (func q))
    → IsCalm (dlist_pos_travel func fuel p)
unfolding dlist_pos_travel
dlist_pos_travel-IsCalm func zero p calm = IsCalm-give_up
dlist_pos_travel-IsCalm func (suc fuel) p calm = IsCalm-if (p == null) _ _ (IsCalm-pure tt) (
    IsCalm-bind _ _ (IsCalm-get_link p)
      (λ n. IsCalm-bind _ _ (calm p) (λ _. dlist_pos_travel-IsCalm func fuel n.next calm)))

dlist_node_init-IsCalm : (p : Ptr) → IsCalm (dlist_node_init p)
unfolding dlist_node_init
dlist_node_init-IsCalm p = IsCalm-modify _ (λ w. refl) (λ w. refl)

pub asthread_res_init-IsCalm : (res : Ptr) (freef : Bool) → IsCalm (asthread_res_init res freef)
unfolding asthread_res_init
asthread_res_init-IsCalm res freef = search (calm_rules, dlist_node_init-IsCalm)

pub asthread_res_add_to_th-IsCalm : (res th : Ptr) → IsCalm (asthread_res_add_to_th res th)
unfolding asthread_res_add_to_th
asthread_res_add_to_th-IsCalm res th = search (calm_rules, on_list-IsCalm)

module _ (ctl : ℕ → ℕ → Bool) where
  set_events-IsCalm :
      (res : Ptr) (events : ℕ) (status : ResStatus) → IsCalm (set_events ctl res events status)
  unfolding set_events
  set_events-IsCalm res events status = search calm_rules

  pub asthread_res_ev_init-IsCalm : (res : Ptr) → IsCalm (asthread_res_ev_init ctl res)
  unfolding asthread_res_ev_init
  asthread_res_ev_init-IsCalm res = set_events-IsCalm res 0 idle

  pub asthread_res_ev_add-IsCalm :
      (res : Ptr) (events : ℕ) → IsCalm (asthread_res_ev_add ctl res events)
  unfolding asthread_res_ev_add
  asthread_res_ev_add-IsCalm res events = set_events-IsCalm res events ev

  asthread_res_ev_del-IsCalm : (res : Ptr) → IsCalm (asthread_res_ev_del ctl res)
  unfolding asthread_res_ev_del
  asthread_res_ev_del-IsCalm res = search (calm_rules, set_events-IsCalm)

  pub asthread_remove_res_from_epfd-IsCalm :
      (fuel : ℕ) (th : Ptr) → IsCalm (asthread_remove_res_from_epfd ctl fuel th)
  unfolding asthread_remove_res_from_epfd
  asthread_remove_res_from_epfd-IsCalm fuel th =
      IsCalm-bind _ _ (search calm_rules)
        (λ t. dlist_pos_travel-IsCalm _ fuel t.head asthread_res_ev_del-IsCalm)

free_resources-IsCalm : (fuel : ℕ) (dln : Ptr) → IsCalm (free_resources fuel dln)
unfolding free_resources
free_resources-IsCalm zero dln = IsCalm-give_up
free_resources-IsCalm (suc fuel) dln =
    search (calm_rules, IsCalm-get_link, close-IsCalm, free_resources-IsCalm fuel) depth 14
  where
    close-IsCalm : (n : ℕ) → IsCalm (modify (λ w. record w { closed = n ∷ w.closed }))
    close-IsCalm n = IsCalm-modify _ (λ w. refl) (λ w. refl)

pub asthread_th_free-IsCalm : (fuel : ℕ) (th : Ptr) → IsCalm (asthread_th_free fuel th)
unfolding asthread_th_free
asthread_th_free-IsCalm fuel th = search (calm_rules, free_resources-IsCalm)
