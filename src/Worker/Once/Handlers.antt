-- ===== src/Worker/Once/Handlers.antt =====
-- c/src/mw_worker.c: the handlers of events, the visits of the pools and a whole round.
use artorias.Prelude.{ℕ, ◌≡◌, refl, Bool, false, none, some, List, [], ◌∷◌}
use artorias.RbTree.Store.{Ptr}
use artorias.World.{PoolName, Thread, World, Act, modify}
use artorias.World.Calm.{Calm, IsCalm, IsCalm-modify, calm_rules}
use artorias.World.Keeps.{Ensures, Ensures-bind, Keeps, Keeps-bind, Ensures-Keeps, keeps_rules}
use artorias.World.Visit.{rb_tree_postorder_travel-Keeps}
use artorias.Thread.{is_stop}
use artorias.Thread.Calm.{asthread_th_del_from_pool-IsCalm, asthread_remove_res_from_epfd-IsCalm}
use artorias.Worker.{
  Message, Memp, Event, Ctx, Lua, thread_resume, handle_accept, th_remove_res_from_epfd, wake,
  handle_fd_read, handle_fd_write, handle_fd_error, handle_event, process_io, p_io_timeout_thread,
  p_sleep_thread, process_pool, process_io_timeout, process_sleep, visits, collect,
}
use artorias.Worker.Stop.{NoneStopped, IsOnce, IsOnce-Calm}
use artorias.Worker.Once.{Keeps-IsOnce, thread_resume-IsOnce, accept_fd-IsOnce}

module _ (lua : Lua) (memp : Memp) (ref : ℕ → Bool) (ctl : ℕ → ℕ → Bool) (ctx : Ctx)
    (fuel : ℕ) where
  th_remove_res_from_epfd-IsCalm :
      (th : Ptr) → IsCalm (th_remove_res_from_epfd lua memp ref ctl ctx fuel th)
  unfolding th_remove_res_from_epfd
  th_remove_res_from_epfd-IsCalm th = search (calm_rules, asthread_remove_res_from_epfd-IsCalm)

  close-IsCalm : (fd : ℕ) → IsCalm (modify (λ w. record w { closed = fd ∷ w.closed }))
  close-IsCalm fd = IsCalm-modify _ (λ w. refl) (λ w. refl)

  module _ (calm : (th : Ptr) (msg : Message) (w : World) → Calm w (lua th msg w).1)
      (fresh : (w : World) (p : Ptr) (t : Thread)
        → memp.new_thread w ≡ some (p, t)
        → w.threads p ≡ none) where
    ruleset once_rules = (
      keeps_rules, Keeps-IsOnce, calm_rules, th_remove_res_from_epfd-IsCalm,
      asthread_th_del_from_pool-IsCalm, close-IsCalm,
    )

    resumed :
        (th : Ptr) (msg : Message) → Keeps IsOnce (thread_resume lua memp ref ctl ctx fuel th msg)
    resumed th msg = thread_resume-IsOnce lua memp ref ctl ctx fuel calm fresh th msg

    wake-IsOnce :
        (res : Ptr) (msg : Message) → Keeps IsOnce (wake lua memp ref ctl ctx fuel res msg)
    unfolding wake
    wake-IsOnce res msg = search (once_rules, resumed) depth 14

    handle_accept-IsOnce :
        (fds : List ℕ) → Keeps IsOnce (handle_accept lua memp ref ctl ctx fuel fds)
    unfolding handle_accept
    handle_accept-IsOnce [] = search once_rules
    handle_accept-IsOnce (fd ∷ rest) =
        Keeps-bind _ _ (accept_fd-IsOnce lua memp ref ctl ctx fuel calm fresh fd)
          (λ _. handle_accept-IsOnce rest)

    handle_fd_error-IsOnce :
        (res : Ptr) → Keeps IsOnce (handle_fd_error lua memp ref ctl ctx fuel res)
    unfolding handle_fd_error
    handle_fd_error-IsOnce res = search (once_rules, wake-IsOnce) depth 14

    handle_event-IsOnce :
        (new : List ℕ) (e : Event) → Keeps IsOnce (handle_event lua memp ref ctl ctx fuel new e)
    unfolding handle_event handle_fd_read handle_fd_write
    handle_event-IsOnce new e =
        search (once_rules, handle_fd_error-IsOnce, handle_accept-IsOnce, wake-IsOnce) depth 14

    process_io-IsOnce :
        (events : List (Event × List ℕ))
        → Keeps IsOnce (process_io lua memp ref ctl ctx fuel events)
    unfolding process_io
    process_io-IsOnce [] = search once_rules
    process_io-IsOnce ((e, new) ∷ rest) =
        Keeps-bind _ _ (handle_event-IsOnce new e) (λ _. process_io-IsOnce rest)

    process_pool-IsOnce :
        (pool : PoolName) (func : Ptr → Act (Unit {0}))
        → ((th : Ptr) → Keeps IsOnce (func th))
        → Keeps IsOnce (process_pool lua memp ref ctl ctx fuel pool func)
    unfolding process_pool
    process_pool-IsOnce pool func each =
        search (once_rules, rb_tree_postorder_travel-Keeps IsOnce IsOnce-Calm func each) depth 14

    p_io_timeout_thread-IsOnce :
        (th : Ptr) → Keeps IsOnce (p_io_timeout_thread lua memp ref ctl ctx fuel th)
    unfolding p_io_timeout_thread
    p_io_timeout_thread-IsOnce th = search (once_rules, resumed) depth 14

    p_sleep_thread-IsOnce : (th : Ptr) → Keeps IsOnce (p_sleep_thread lua memp ref ctl ctx fuel th)
    unfolding p_sleep_thread
    p_sleep_thread-IsOnce th = search (once_rules, resumed) depth 14

    started : (w : World) → NoneStopped w → IsOnce (record w { stop = [] })
    started w live = record {
      distinct = tt;
      in_stop = λ p h. cc;
      stopped = λ p t e s. let l : is_stop t.status ≡ false = live p t e in cc;
    }

    visits-IsOnce :
        (events : List (Event × List ℕ)) → Keeps IsOnce (visits lua memp ref ctl ctx fuel events)
    unfolding visits process_io_timeout process_sleep
    visits-IsOnce events = search (
      keeps_rules, process_io-IsOnce, process_pool-IsOnce, p_io_timeout_thread-IsOnce,
      p_sleep_thread-IsOnce,
    )

    -- Let the Lua code leave the status of every thread and the list of stopped threads alone and
    -- put no thread into a pool, and let `memp_alloc` return addresses that no thread has. From a
    -- world in which no thread is stopped, whatever events and connections come, if the part of a
    -- round before `process_stop_threads` ends without a crash and within its fuel, the list of
    -- stopped threads holds exactly the threads that are stopped, each once, and none of them names
    -- a pool.
    pub collect-IsOnce :
        (events : List (Event × List ℕ))
        → Ensures NoneStopped (collect lua memp ref ctl ctx fuel events) (λ a. IsOnce)
    unfolding collect modify
    collect-IsOnce events =
        Ensures-bind (λ a. IsOnce) (modify (λ w. record w { stop = [] }))
          (λ _. visits lua memp ref ctl ctx fuel events) (record { at = started })
          (λ _. Ensures-Keeps _ (visits-IsOnce events))
