-- ===== src/Worker/Once.antt =====
-- c/src/mw_worker.c: the rounds of the loop and the list of stopped threads. The Lua code leaves the
-- stopped threads and their list alone, and `memp_alloc` returns an address that no thread has.
pub mod Handlers
use artorias.Prelude.{
  ℕ, zero, suc, ◌+◌, ◌-◌, ◌^◌, ◌≡◌, refl, sym, ap, ◌∙◌, Bool, true, false, not, ◌||◌, Option, none,
  some, List, [], ◌∷◌, ◌==◌, if◌then◌else◌, arith, Bool-cases,
}
use artorias.RbTree.Store.{Ptr, null, Node}
use artorias.World.{
  PoolName, io_pool, sleep_pool, Thread, World, Act, continue, ended, present, ◌>>=◌, ◌>>◌, pure,
  gets, modify, update, get_thread, put_thread, get_res, put_res, on_pool,
}
use artorias.World.Travel.{rb_tree_postorder_travel}
use artorias.World.Calm.{Calm, Ensures-Calm, IsCalm, IsCalm-modify, Keeps-Calm, calm_rules}
use artorias.World.Keeps.{
  Holds, Ensures, Ensures-bind, Ensures-pure, Ensures-if, Ensures-pre, Ensures-post,
  Ensures-get_thread, Ensures-put_thread, Keeps, Keeps-pure, Keeps-give_up, Keeps-if, Keeps-bind,
  Keeps-Ensures, Ensures-Keeps, keeps_rules, update_self,
}
use artorias.World.Visit.{rb_tree_postorder_travel-Keeps}
use artorias.Thread.{
  is_stop, set_ready, give_back_tid, asthread_th_init, asthread_th_to_iowait, asthread_res_ev_add,
  asthread_res_init, asthread_res_add_to_th, asthread_res_ev_init,
}
use artorias.Thread.Calm.{
  Calm-update, IsCalm-with_thread, asthread_th_del_from_pool-IsCalm, asthread_res_init-IsCalm,
  asthread_res_add_to_th-IsCalm, asthread_res_ev_init-IsCalm, asthread_res_ev_add-IsCalm,
  asthread_remove_res_from_epfd-IsCalm,
}
use artorias.Worker.{
  ℤ, add_secs, Message, begin, Yield, for_io, for_sleep, for_ev, ends, Memp, Event, Ctx, Lua,
  place_thread, th_yield_for_io, th_yield_for_sleep, yielded, resume, thread_resume, alloc_thread,
  alloc_res, open_res, accept_fd, handle_accept, th_remove_res_from_epfd, wake, handle_fd_read,
  handle_fd_write, handle_fd_error, handle_event, process_io, p_io_timeout_thread, p_sleep_thread,
  process_pool, process_io_timeout, process_sleep, collect,
}
use artorias.Worker.Stop.{
  IsOnce, IsOnceBut, IsLive, Both, IsOnceBut-live, IsOnceBut-none, IsOnce-but, IsOnceBut-put,
  IsOnce-Calm, IsOnceBut-Calm, IsLive-Calm,
}
use artorias.Worker.Leave.{
  Both-Calm, asthread_th_to_stop-IsOnce, asthread_th_to_sleep-IsOnce, asthread_th_to_iowait-IsOnce,
}

pub Keeps-IsOnce : {A : Type 0} (m : Act A) → IsCalm m → Keeps IsOnce m
Keeps-IsOnce m k = Keeps-Calm IsOnce IsOnce-Calm m k

module _ (lua : Lua) (memp : Memp) (ref : ℕ → Bool) (ctl : ℕ → ℕ → Bool) (ctx : Ctx)
    (fuel : ℕ) where
  -- A command that starts with the time.
  at_clock :
      (th : Ptr) (f : ℕ → Act (Unit {0}))
      → ((now : ℕ) → Ensures (Both th) (f now) (λ a. IsOnce))
      → Ensures (Both th) (gets (λ w. w.clock) >>= f) (λ a. IsOnce)
  at_clock th f next =
      Ensures-bind (λ a. Both th) (gets (λ w. w.clock)) f
        (Ensures-Calm (Both th) _ (Both-Calm th) (search calm_rules)) next

  yield_for_sleep-IsOnce :
      (th : Ptr) (secs : ℤ)
      → Ensures (Both th) (th_yield_for_sleep lua memp ref ctl ctx fuel th secs) (λ a. IsOnce)
  unfolding th_yield_for_sleep
  yield_for_sleep-IsOnce th secs =
      at_clock th _ (λ now. asthread_th_to_sleep-IsOnce fuel th (add_secs now secs) sleep_pool)

  yielded-IsOnce :
      (th : Ptr) (y : Yield)
      → Ensures (Both th) (yielded lua memp ref ctl ctx fuel th y) (λ a. IsOnce)
  unfolding th_yield_for_io
  yielded-IsOnce th (for_io res input secs) = at_clock th _ (λ now.
      Ensures-bind (λ a. IsOnce) (asthread_th_to_iowait fuel th _ io_pool)
        (λ _. asthread_res_ev_add ctl res _) (asthread_th_to_iowait-IsOnce fuel th _ io_pool)
        (λ _. Ensures-Calm IsOnce _ IsOnce-Calm (asthread_res_ev_add-IsCalm ctl res _)))
  yielded-IsOnce th (for_sleep secs) = yield_for_sleep-IsOnce th secs
  yielded-IsOnce th (for_ev secs) = yield_for_sleep-IsOnce th secs
  yielded-IsOnce th ends = asthread_th_to_stop-IsOnce fuel th

  module _ (calm : (th : Ptr) (msg : Message) (w : World) → Calm w (lua th msg w).1)
      (fresh : (w : World) (p : Ptr) (t : Thread)
        → memp.new_thread w ≡ some (p, t)
        → w.threads p ≡ none) where
    resume-IsCalm : (th : Ptr) (msg : Message) → IsCalm (resume lua memp ref ctl ctx fuel th msg)
    unfolding resume
    resume-IsCalm th msg = record { at = λ w. calm th msg w }

    pub thread_resume-IsOnce :
        (th : Ptr) (msg : Message) → Keeps IsOnce (thread_resume lua memp ref ctl ctx fuel th msg)
    unfolding thread_resume
    thread_resume-IsOnce th msg = Keeps-Ensures _ (
        Ensures-bind (λ t w. IsOnce w × (w.threads th ≡ some t)) (get_thread th) _
          (Ensures-get_thread IsOnce th)
          (λ t.
            Ensures-if _ _ (is_stop t.status) _ _ (λ s. Ensures-pure _ _ tt (λ w h. h.0))
              (λ live.
                Ensures-bind (λ y. Both th) (resume lua memp ref ctl ctx fuel th msg)
                  (λ y. yielded lua memp ref ctl ctx fuel th y)
                  (Ensures-pre (Both th) _ _ _ (λ w h. (h.0, (t, h.1, live)))
                    (Ensures-Calm (Both th) _ (Both-Calm th) (resume-IsCalm th msg)))
                  (yielded-IsOnce th))))

    alloc_thread-IsOnce : Ensures IsOnce (alloc_thread lua memp ref ctl ctx fuel) IsOnceBut
    unfolding alloc_thread place_thread ◌>>=◌ gets present put_thread modify pure
    alloc_thread-IsOnce = record { at = λ w h. at_address w h (memp.new_thread w) refl }
      where
        at_address :
            (w : World)
            → IsOnce w
            → (o : Option (Ptr × Thread)) → memp.new_thread w ≡ o
            → Holds IsOnceBut (continue (present o w) place_thread)
        at_address w h none e = tt
        at_address w h (some (p, t)) e =
            IsOnceBut-put w p (some t) (IsOnceBut-none w p h (fresh w p t e))

    -- A new thread is either not made or it is not stopped.
    abbrev MadeIf : Ptr → ℕ → World → Type 0
    MadeIf th tid w = IsOnceBut th w × ((tid == 2 ^ 32 - 1) ≡ false → IsLive th w)

    but_calm :
        (th : Ptr) {A : Type 0} (m : Act A)
        → IsCalm m
        → Ensures (IsOnceBut th) m (λ a. IsOnceBut th)
    but_calm th m k = Ensures-Calm (IsOnceBut th) m (λ w w' c. IsOnceBut-Calm w w' c th) k

    set_ready-IsOnce : (th : Ptr) (tid : ℕ) → Ensures (IsOnceBut th) (set_ready th tid) (MadeIf th)
    unfolding set_ready
    set_ready-IsOnce th tid =
        Ensures-bind (λ t w. IsOnceBut th w × (w.threads th ≡ some t)) (get_thread th) _
          (Ensures-get_thread (IsOnceBut th) th)
          (λ t.
            Ensures-bind (λ a w. IsOnceBut th w × IsLive th w) (put_thread th _) (λ _. pure tid)
              (Ensures-pre _ _ _ _
                (λ w h. (IsOnceBut-put w th _ h.0, (_, update_self w.threads th _, refl)))
                (Ensures-put_thread (λ w. IsOnceBut th w × IsLive th w) th _))
              (λ _. Ensures-pure _ _ tid (λ w h. (h.0, λ _. h.1))))

    give_back_tid-IsOnce : (th : Ptr) → Ensures (IsOnceBut th) give_back_tid (MadeIf th)
    unfolding give_back_tid
    give_back_tid-IsOnce th =
        Ensures-bind (λ a. IsOnceBut th) (modify _) (λ _. pure (2 ^ 32 - 1))
          (but_calm th _ (IsCalm-modify _ (λ w. refl) (λ w. refl)))
          (λ _. Ensures-pure _ _ _ (λ w h. (h, λ no. cc)))

    asthread_th_init-IsOnce :
        (th : Ptr) → Ensures (IsOnceBut th) (asthread_th_init ref th) (MadeIf th)
    unfolding asthread_th_init
    asthread_th_init-IsOnce th =
        Ensures-bind (λ a. IsOnceBut th) (modify _) _
          (but_calm th _ (IsCalm-modify _ (λ w. refl) (λ w. refl)))
          (λ _.
            Ensures-bind (λ a. IsOnceBut th) (gets (λ w. w.cur_tid))
              (λ tid. if ref tid then set_ready th tid else give_back_tid)
              (but_calm th _ (search calm_rules))
              (λ tid.
                Ensures-if _ _ (ref tid) _ _ (λ found. set_ready-IsOnce th tid)
                  (λ missing. give_back_tid-IsOnce th)))

    set_mfd_res-IsCalm :
        (th res : Ptr)
        → IsCalm (get_thread th >>= λ t. put_thread th (some (record t { mfd_res = res })))
    unfolding put_thread modify
    set_mfd_res-IsCalm th res =
        IsCalm-with_thread th (λ t. put_thread th (some (record t { mfd_res = res })))
          (λ t w e. Calm-update w _ th t _ e (refl, λ h. h) refl refl)

    open_res-IsCalm : (fd : ℕ) (th : Ptr) → IsCalm (open_res lua memp ref ctl ctx fuel fd th)
    unfolding open_res alloc_res
    open_res-IsCalm fd th =
        search
          (
            calm_rules, asthread_res_init-IsCalm, asthread_res_add_to_th-IsCalm,
            asthread_res_ev_init-IsCalm, set_mfd_res-IsCalm,
          )
          depth 14

    made_Both :
        (w : World) (th : Ptr) (tid : ℕ) → MadeIf th tid w → (tid == 2 ^ 32 - 1) ≡ false → Both th w
    made_Both w th tid (is, live) made =
        let (t, e, s) = live made in
        (
          IsOnce-but w th is (λ u e'.
              let j : some t ≡ some u = sym e ∙ e' in
              let same : t ≡ u = ground arith in
              ap (λ (x : Thread). is_stop x.status) (sym same) ∙ s),
          (t, e, s),
        )

    dropped :
        (w : World) (th : Ptr)
        → IsOnceBut th w
        → IsOnce (record w { threads = update w.threads th none })
    dropped w th is =
        IsOnce-but _ th (IsOnceBut-put w th none is)
          (λ t e. absurd (no_some (sym (update_self w.threads th none) ∙ e)))
      where
        no_some : {t : Thread} → none ≡ some t → ⊥
        no_some e = cc

    pub accept_fd-IsOnce : (fd : ℕ) → Keeps IsOnce (accept_fd lua memp ref ctl ctx fuel fd)
    unfolding accept_fd
    accept_fd-IsOnce fd = Keeps-Ensures _ (
        Ensures-bind IsOnceBut (alloc_thread lua memp ref ctl ctx fuel) _ alloc_thread-IsOnce (λ th.
          Ensures-bind (MadeIf th) (asthread_th_init ref th) _ (asthread_th_init-IsOnce th) (λ tid.
            Ensures-if _ _ (tid == 2 ^ 32 - 1) _ _
              (λ failed.
                Ensures-pre _ _ _ _ (λ w h. dropped w th h.0) (Ensures-put_thread IsOnce th none))
              (λ made.
                Ensures-bind (λ a. Both th) (open_res lua memp ref ctl ctx fuel fd th)
                  (λ _. thread_resume lua memp ref ctl ctx fuel th begin)
                  (Ensures-pre (Both th) _ _ _ (λ w h. made_Both w th tid h made)
                    (Ensures-Calm (Both th) _ (Both-Calm th) (open_res-IsCalm fd th)))
                  (λ _.
                    Ensures-pre IsOnce _ _ _ (λ w h. h.0)
                      (Ensures-Keeps _ (thread_resume-IsOnce th begin)))))))
