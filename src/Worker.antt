-- ===== src/Worker.antt =====
-- c/src/mw_worker.c: the loop of a worker. What is not in this repository is a parameter: `lua` resumes
-- the coroutine of a thread with a message and says how it ends, with the world that its code leaves;
-- `ref` and `ctl` are those of Thread. Connections and events come as lists.
mod Types
pub mod Stop
pub mod Leave
pub mod Once
pub mod Freed
mod Tests
pub use Types.*
use artorias.Prelude.{
  ℕ, zero, suc, ◌+◌, ◌-◌, ◌^◌, Bool, true, false, not, ◌&&◌, ◌||◌, Option, none, some, List, [],
  ◌∷◌, ◌==◌, if◌then◌else◌,
}
use artorias.RbTree.Store.{Ptr, null}
use artorias.World.{
  Status, stop, Mode, simple, PoolName, io_pool, sleep_pool, Res, Thread, World, Act, ended, ◌>>=◌,
  ◌>>◌, pure, gets, modify, present, get_thread, put_thread, get_res, put_res, on_pool,
}
use artorias.World.Travel.{rb_tree_postorder_travel}
use artorias.Timeout.{asthread_remove_timeout_threads}
use artorias.Thread.{
  is_stop, is_simple, et_of, asthread_th_init, asthread_th_free, asthread_th_del_from_pool,
  asthread_res_init, asthread_res_add_to_th, asthread_th_to_stop, asthread_th_to_sleep,
  asthread_th_to_iowait, asthread_res_ev_init, asthread_res_ev_add, asthread_remove_res_from_epfd,
}

-- What an address holds once it is allocated.
pub place_thread : Ptr × Thread → Act Ptr
unfolding ◌>>=◌ put_thread pure
place_thread (th, junk) = do put_thread th (some junk); pure th

module _ (lua : Lua) (memp : Memp) (ref : ℕ → Bool) (ctl : ℕ → ℕ → Bool) (ctx : Ctx)
    (fuel : ℕ) where
  pub th_yield_for_io : Ptr → Ptr → Bool → ℤ → Act (Unit {0})
  unfolding ◌>>=◌ gets asthread_th_to_iowait asthread_res_ev_add
  th_yield_for_io th res input secs = do
    now ← gets (λ w. w.clock)
    asthread_th_to_iowait fuel th (add_secs now (or_default ctx.conn_timeout secs)) io_pool
    asthread_res_ev_add ctl res (if input then ctx.in_events else ctx.out_events)

  -- `th_yield_for_sleep` and `th_yield_for_ev`, which are the same.
  pub th_yield_for_sleep : Ptr → ℤ → Act (Unit {0})
  unfolding ◌>>=◌ gets asthread_th_to_sleep
  th_yield_for_sleep th secs = do
    now ← gets (λ w. w.clock)
    asthread_th_to_sleep fuel th (add_secs now secs) sleep_pool

  abbrev pub yielded : Ptr → Yield → Act (Unit {0})
  yielded th (for_io res input secs) = th_yield_for_io th res input secs
  yielded th (for_sleep secs) = th_yield_for_sleep th secs
  yielded th (for_ev secs) = th_yield_for_sleep th secs
  yielded th ends = asthread_th_to_stop fuel th

  -- `alua_resume`
  pub resume : Ptr → Message → Act Yield
  resume th msg w = let (y, w') = lua th msg w in ended y w'

  pub thread_resume : Ptr → Message → Act (Unit {0})
  unfolding ◌>>=◌ get_thread pure resume th_yield_for_io th_yield_for_sleep asthread_th_to_stop
  thread_resume th msg = do
    t ← get_thread th
    if is_stop t.status then pure tt else (do y ← resume th msg; yielded th y)

  pub alloc_thread : Act Ptr
  unfolding ◌>>=◌ gets present place_thread
  alloc_thread = do found ← gets memp.new_thread; at ← present found; place_thread at

  pub alloc_res : Act Ptr
  unfolding ◌>>=◌ gets present put_res pure
  alloc_res = do
    found ← gets memp.new_res
    (res, junk) ← present found
    put_res res (some junk)
    pure res

  -- The resource of a new thread `th`, for the descriptor `fd`.
  pub open_res : ℕ → Ptr → Act (Unit {0})
  unfolding ◌>>=◌ get_res put_res get_thread put_thread alloc_res asthread_res_init
      asthread_res_add_to_th asthread_res_ev_init
  open_res fd th = do
    res ← alloc_res
    r ← get_res res
    put_res res (some (record r { fd = fd }))
    asthread_res_init res true
    asthread_res_add_to_th res th
    asthread_res_ev_init ctl res
    t ← get_thread th
    put_thread th (some (record t { mfd_res = res }))

  -- One round of the loop of `handle_accept`.
  pub accept_fd : ℕ → Act (Unit {0})
  unfolding ◌>>=◌ put_thread alloc_thread asthread_th_init open_res thread_resume
  accept_fd fd = do
    th ← alloc_thread
    tid ← asthread_th_init ref th
    if tid == 2 ^ 32 - 1 then put_thread th none else (do open_res fd th; thread_resume th begin)

  pub handle_accept : List ℕ → Act (Unit {0})
  unfolding ◌>>=◌ pure accept_fd
  handle_accept [] = pure tt
  handle_accept (fd ∷ rest) = do accept_fd fd; handle_accept rest

  -- `th_remove_res_from_epfd`
  pub th_remove_res_from_epfd : Ptr → Act (Unit {0})
  unfolding ◌>>=◌ get_thread pure asthread_remove_res_from_epfd
  th_remove_res_from_epfd th = do
    t ← get_thread th
    if is_simple t.mode then asthread_remove_res_from_epfd ctl fuel th else pure tt

  -- What `handle_fd_read`, `handle_fd_write` and `handle_fd_error` do with a thread's resource.
  pub wake : Ptr → Message → Act (Unit {0})
  unfolding ◌>>=◌ get_res get_thread pure asthread_th_del_from_pool th_remove_res_from_epfd
      thread_resume
  wake res msg = do
    r ← get_res res
    t ← get_thread r.th
    if is_stop t.status then pure tt else (do
      asthread_th_del_from_pool fuel r.th
      th_remove_res_from_epfd r.th
      thread_resume r.th msg)

  pub handle_fd_read : Ptr → Act (Unit {0})
  unfolding wake
  handle_fd_read res = wake res (resume_io res true)

  pub handle_fd_write : Ptr → Act (Unit {0})
  unfolding wake
  handle_fd_write res = wake res (resume_io res false)

  pub handle_fd_error : Ptr → Act (Unit {0})
  unfolding ◌>>=◌ get_res modify wake
  handle_fd_error res =
      if res == ctx.cfd_res
      then (do r ← get_res ctx.cfd_res; modify (λ w. record w { closed = r.fd ∷ w.closed }))
      else wake res (resume_io_error res)

  -- The body of the loop of `process_io`; `new` are the descriptors of the connections that wait.
  pub handle_event : List ℕ → Event → Act (Unit {0})
  unfolding pure handle_fd_error handle_accept handle_fd_read handle_fd_write
  handle_event new e =
      if e.err || (e.hup || not (e.into || e.out))
      then handle_fd_error e.res
      else if e.res == ctx.cfd_res
      then handle_accept new
      else if e.into
      then handle_fd_read e.res
      else if e.out
      then handle_fd_write e.res
      else pure tt

  pub process_io : List (Event × List ℕ) → Act (Unit {0})
  unfolding ◌>>=◌ pure handle_event
  process_io [] = pure tt
  process_io ((e, new) ∷ rest) = do handle_event new e; process_io rest

  pub p_io_timeout_thread : Ptr → Act (Unit {0})
  unfolding ◌>>=◌ get_thread pure th_remove_res_from_epfd thread_resume
  p_io_timeout_thread th = do
    t ← get_thread th
    if is_stop t.status
        then pure tt
        else (do th_remove_res_from_epfd th; thread_resume th resume_io_timeout)

  pub p_sleep_thread : Ptr → Act (Unit {0})
  unfolding ◌>>=◌ get_thread pure thread_resume
  p_sleep_thread th = do
    t ← get_thread th
    if is_stop t.status then pure tt else thread_resume th resume_sleep

  -- `process_io_timeout` and `process_sleep`
  pub process_pool : PoolName → (Ptr → Act (Unit {0})) → Act (Unit {0})
  unfolding ◌>>=◌ gets on_pool asthread_remove_timeout_threads rb_tree_postorder_travel
  process_pool pool func = do
    et ← gets et_of
    now ← gets (λ w. w.clock)
    timeout_tr ← on_pool pool (asthread_remove_timeout_threads et now fuel)
    rb_tree_postorder_travel func fuel timeout_tr

  pub process_io_timeout : Act (Unit {0})
  unfolding process_pool p_io_timeout_thread
  process_io_timeout = process_pool io_pool p_io_timeout_thread

  pub process_sleep : Act (Unit {0})
  unfolding process_pool p_sleep_thread
  process_sleep = process_pool sleep_pool p_sleep_thread

  -- A thread is freed, and its memory and that of its first resource are given back.
  pub dispose : Ptr → Act (Unit {0})
  unfolding ◌>>=◌ get_thread put_thread put_res asthread_th_free
  dispose th = do
    asthread_th_free fuel th
    t ← get_thread th
    put_res t.mfd_res none
    put_thread th none

  pub dispose_all : List Ptr → Act (Unit {0})
  unfolding ◌>>=◌ pure dispose
  dispose_all [] = pure tt
  dispose_all (th ∷ ths) = do dispose th; dispose_all ths

  pub process_stop_threads : Act (Unit {0})
  unfolding ◌>>=◌ gets dispose_all
  process_stop_threads = do ths ← gets (λ w. w.stop); dispose_all ths

  -- A round of the loop of `process`, for the events that `epoll_wait` reports: its visits, with the
  -- list emptied before them, and with `process_stop_threads` after them.
  pub visits : List (Event × List ℕ) → Act (Unit {0})
  unfolding ◌>>=◌ process_io process_io_timeout process_sleep
  visits events = do process_io events; process_io_timeout; process_sleep

  pub collect : List (Event × List ℕ) → Act (Unit {0})
  unfolding ◌>>=◌ modify visits
  collect events = do modify (λ w. record w { stop = [] }); visits events

  pub round : List (Event × List ℕ) → Act (Unit {0})
  unfolding ◌>>=◌ collect process_stop_threads
  round events = do collect events; process_stop_threads

  pub rounds : List (List (Event × List ℕ)) → Act (Unit {0})
  unfolding ◌>>=◌ pure round
  rounds [] = pure tt
  rounds (events ∷ rest) = do round events; rounds rest

  -- `recycle_threads_from_pool`
  recycle_threads_from_pool : Act (Unit {0})
  unfolding ◌>>=◌ gets rb_tree_postorder_travel dispose
  recycle_threads_from_pool = do
    io ← gets (λ w. w.io_root)
    rb_tree_postorder_travel dispose fuel io
    asleep ← gets (λ w. w.sleep_root)
    rb_tree_postorder_travel dispose fuel asleep

  -- `process` after its setup: the loop, and what comes after it.
  pub process : List (List (Event × List ℕ)) → Act (Unit {0})
  unfolding ◌>>=◌ rounds process_stop_threads recycle_threads_from_pool
  process loop = do rounds loop; process_stop_threads; recycle_threads_from_pool
