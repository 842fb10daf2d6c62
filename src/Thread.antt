-- ===== src/Thread.antt =====
-- c/src/thread.h and c/src/thread.c: the life of a thread, its resources, and their registration with
-- `epoll`. `ref` says whether `lbind_ref_tid_lthread` finds a Lua thread for a number, and `ctl`
-- whether `epoll_ctl` succeeds for a descriptor and a set of events.
pub mod Calm
pub mod Armed
pub mod Pool
mod Tests
use artorias.Prelude.{
  ℕ, zero, suc, ◌+◌, ◌-◌, ◌%◌, ◌^◌, Bool, true, false, Option, none, some, List, [], ◌∷◌, ◌++◌,
  ◌==◌, ltb, if◌then◌else◌,
}
use artorias.RbTree.Store.{Ptr, null}
use artorias.RbTree.Insert.{rb_tree_insert, rb_tree_insert_case}
use artorias.RbTree.Delete.{rb_tree_delete}
use artorias.Dlist.{dlist_add_to_head, dlist_del, links}
use artorias.World.{
  Status, ready, run, sleep, stop, Mode, simple, ResStatus, idle, ev, PoolName, Res, Thread, World,
  Act, ◌>>=◌, ◌>>◌, pure, give_up, gets, modify, update, get_thread, put_thread, get_res, put_res,
  on_pool, on_list,
}
use artorias.World.Travel.{get_link, dlist_pos_travel}

abbrev pub is_stop : Status → Bool
is_stop stop = true
is_stop _ = false

abbrev pub is_simple : Mode → Bool
is_simple simple = true
is_simple _ = false

abbrev pub is_ev : ResStatus → Bool
is_ev ev = true
is_ev idle = false

-- The fields of a thread whose number is `tid`. `th->et`, `p_idx` and `mfd_res` keep what the memory
-- holds.
unfoldable pub set_ready : Ptr → ℕ → Act ℕ
unfolding ◌>>=◌ get_thread put_thread pure
set_ready th tid = do
  t ← get_thread th
  put_thread th (
      some (record t {
        tid = tid;
        status = ready;
        mode = simple;
        pool = none;
        head = null;
        tail = null;
      }))
  pure tid

-- No Lua thread: the number is given back.
unfoldable pub give_back_tid : Act ℕ
unfolding ◌>>=◌ modify pure
give_back_tid = do
  modify (λ w. record w { cur_tid = (w.cur_tid + (2 ^ 32 - 1)) % 2 ^ 32 })
  pure (2 ^ 32 - 1)

-- `asthread_th_init`: the result is the number, or -1.
unfoldable pub asthread_th_init : (ℕ → Bool) → Ptr → Act ℕ
unfolding ◌>>=◌ gets modify set_ready give_back_tid
asthread_th_init ref th = do
  modify (λ w. record w { cur_tid = (w.cur_tid + 1) % 2 ^ 32 })
  tid ← gets (λ w. w.cur_tid)
  if ref tid then set_ready th tid else give_back_tid

-- The loop of `asthread_th_free` at the list node `dln`: each resource forgets its thread and is closed.
pub free_resources : ℕ → Ptr → Act (Unit {0})
unfolding ◌>>=◌ get_res put_res get_link modify pure give_up
free_resources zero dln = give_up
free_resources (suc fuel) dln = if dln == null then pure tt else (do
  r ← get_res dln
  put_res dln (some (record r { th = null }))
  n ← get_link dln
  if r.freef
      then (do
        modify (λ w. record w { closed = r.fd ∷ w.closed })
        put_res dln (some (record r { th = null; freef = false })))
      else pure tt
  free_resources fuel n.next)

unfoldable pub asthread_th_free : ℕ → Ptr → Act (Unit {0})
unfolding ◌>>=◌ get_thread free_resources
asthread_th_free fuel th = do t ← get_thread th; free_resources fuel t.head

-- `node_et_lt`
abbrev pub et_of : World → Ptr → ℕ
et_of w p = elim (w.threads p) [ none ↦ 0 | some t ↦ t.et ]

abbrev pub node_et_lt : World → Ptr → Ptr → Bool
node_et_lt w a b = ltb (et_of w a) (et_of w b)

-- `rb_tree_insert` and `rb_tree_insert_case` of the thread's node.
pub insert_node : ℕ → Ptr → PoolName → Act (Unit {0})
unfolding ◌>>=◌ gets on_pool rb_tree_insert rb_tree_insert_case
insert_node fuel th pool = do
  lt ← gets node_et_lt
  on_pool pool (rb_tree_insert lt fuel th)
  on_pool pool (rb_tree_insert_case fuel th)

unfoldable pub asthread_th_add_to_pool : ℕ → Ptr → PoolName → Act (Unit {0})
unfolding ◌>>=◌ get_thread put_thread pure insert_node
asthread_th_add_to_pool fuel th pool = do
  t ← get_thread th
  if is_stop t.status
      then pure tt
      else (do put_thread th (some (record t { pool = some pool })); insert_node fuel th pool)

abbrev pub del_from : ℕ → Ptr → Thread → Option PoolName → Act (Unit {0})
del_from fuel th t none = pure tt
del_from fuel th t (some q) =
    on_pool q (rb_tree_delete fuel th) >> put_thread th (some (record t { pool = none }))

unfoldable pub asthread_th_del_from_pool : ℕ → Ptr → Act (Unit {0})
unfolding ◌>>=◌ get_thread put_thread on_pool pure rb_tree_delete
asthread_th_del_from_pool fuel th = do t ← get_thread th; del_from fuel th t t.pool

-- The macro of c/src/dlist.h.
pub dlist_node_init : Ptr → Act (Unit {0})
unfolding modify
dlist_node_init p = modify (λ w. record w { nodes = update w.nodes p (some (links null null)) })

-- The fields of a resource; its list node is cleared.
unfoldable pub asthread_res_init : Ptr → Bool → Act (Unit {0})
unfolding ◌>>=◌ get_res put_res dlist_node_init
asthread_res_init res freef = do
  r ← get_res res
  put_res res (some (record r { status = idle; freef = freef }))
  dlist_node_init res

unfoldable pub asthread_res_add_to_th : Ptr → Ptr → Act (Unit {0})
unfolding ◌>>=◌ get_res put_res get_thread on_list dlist_add_to_head
asthread_res_add_to_th res th = do
  r ← get_res res
  put_res res (some (record r { th = th }))
  t ← get_thread th
  on_list th t (λ l. dlist_add_to_head l res)

unfoldable pub asthread_res_del_from_th : Ptr → Ptr → Act (Unit {0})
unfolding ◌>>=◌ get_thread on_list dlist_del
asthread_res_del_from_th res th = do t ← get_thread th; on_list th t (λ l. dlist_del l res)

-- The array has no bound here.
unfoldable pub append_stop : Ptr → Act (Unit {0})
unfolding modify
append_stop th = modify (λ w. record w { stop = w.stop ++ (th ∷ []) })

unfoldable pub asthread_th_add_to_array : ℕ → Ptr → Act (Unit {0})
unfolding ◌>>=◌ asthread_th_del_from_pool append_stop
asthread_th_add_to_array fuel th = do asthread_th_del_from_pool fuel th; append_stop th

unfoldable pub asthread_th_to_stop : ℕ → Ptr → Act (Unit {0})
unfolding ◌>>=◌ get_thread put_thread asthread_th_add_to_array
asthread_th_to_stop fuel th = do
  t ← get_thread th
  put_thread th (some (record t { status = stop; pool = none }))
  asthread_th_add_to_array fuel th

unfoldable pub asthread_th_to_sleep : ℕ → Ptr → ℕ → PoolName → Act (Unit {0})
unfolding ◌>>=◌ get_thread put_thread asthread_th_add_to_pool
asthread_th_to_sleep fuel th et pool = do
  t ← get_thread th
  put_thread th (some (record t { et = et; status = sleep }))
  asthread_th_add_to_pool fuel th pool

unfoldable pub asthread_th_to_iowait : ℕ → Ptr → ℕ → PoolName → Act (Unit {0})
unfolding ◌>>=◌ get_thread put_thread asthread_th_add_to_pool
asthread_th_to_iowait fuel th et pool = do
  t ← get_thread th
  put_thread th (some (record t { et = et; status = run }))
  asthread_th_add_to_pool fuel th pool

module _ (ctl : ℕ → ℕ → Bool) where
  -- `epoll_ctl`, and the new status where it succeeds.
  pub set_events : Ptr → ℕ → ResStatus → Act (Unit {0})
  unfolding ◌>>=◌ get_res put_res pure
  set_events res events status = do
    r ← get_res res
    if ctl r.fd events then put_res res (some (record r { status = status })) else pure tt

  unfoldable pub asthread_res_ev_init : Ptr → Act (Unit {0})
  unfolding set_events
  asthread_res_ev_init res = set_events res 0 idle

  unfoldable pub asthread_res_ev_add : Ptr → ℕ → Act (Unit {0})
  unfolding set_events
  asthread_res_ev_add res events = set_events res events ev

  pub asthread_res_ev_del : Ptr → Act (Unit {0})
  unfolding ◌>>=◌ get_res set_events pure
  asthread_res_ev_del res = do
    r ← get_res res
    if is_ev r.status then pure tt else set_events res 0 idle

  unfoldable pub asthread_remove_res_from_epfd : ℕ → Ptr → Act (Unit {0})
  unfolding ◌>>=◌ get_thread dlist_pos_travel asthread_res_ev_del
  asthread_remove_res_from_epfd fuel th = do
    t ← get_thread th
    dlist_pos_travel asthread_res_ev_del fuel t.head
