-- ===== src/Worker/Leave.antt =====
-- c/src/thread.h: how a running thread is left, in a pool or stopped.
use artorias.Prelude.{
  ℕ, ◌≡◌, refl, sym, ap, subst, ◌∙◌, inl, inr, Bool, true, false, Option, none, some, List, [], ◌∷◌,
  ◌++◌, ◌==◌, arith, Bool-cases,
}
use artorias.RbTree.Store.{Ptr}
use artorias.Dlist.Segment.{has, has-append}
use artorias.World.{
  stop, run, sleep, Thread, PoolName, World, ◌>>=◌, ◌>>◌, modify, update, get_thread, put_thread,
}
use artorias.World.Calm.{Calm, Ensures-Calm}
use artorias.World.Keeps.{
  Ensures, Ensures-bind, Ensures-pure, Ensures-if, Ensures-pre, Ensures-get_thread,
  Ensures-put_thread, update_self,
}
use artorias.Thread.{
  is_stop, insert_node, asthread_th_del_from_pool, asthread_th_add_to_pool,
  asthread_th_add_to_array, append_stop, asthread_th_to_stop, asthread_th_to_sleep,
  asthread_th_to_iowait,
}
use artorias.Thread.Calm.{asthread_th_del_from_pool-IsCalm, insert_node-IsCalm}
use artorias.Worker.Stop.{
  Distinct, IsStopped, IsOnce, IsOnceBut, Both, IsOnceBut-live, IsOnce-but, IsOnceBut-put,
  IsOnce-Calm, IsOnceBut-Calm, IsStopped-Calm, IsLive-Calm,
}

pub Both-Calm : (th : Ptr) (w w' : World) → Calm w w' → Both th w → Both th w'
Both-Calm th w w' c (is, live) = (IsOnce-Calm w w' c is, IsLive-Calm w w' c th live)

-- A thread that was not stopped is written, and is not stopped.
Both-put :
    (w : World) (th : Ptr) (u : Thread)
    → Both th w
    → is_stop u.status ≡ false
    → Both th (record w { threads = update w.threads th (some u) })
Both-put w th u both s =
    let w' : World = record w { threads = update w.threads th (some u) } in
    let at : w'.threads th ≡ some u = update_self w.threads th (some u) in
    (
      IsOnce-but w' th (IsOnceBut-put w th (some u) (IsOnceBut-live w th both))
          (λ t e. ap (λ (o : Option Thread). stopped_of o) (sym e ∙ at) ∙ s),
      (u, at, s),
    )
  where
    stopped_of : Option Thread → Bool
    stopped_of none = false
    stopped_of (some t) = is_stop t.status

module _ (fuel : ℕ) (th : Ptr) where
  asthread_th_add_to_pool-IsOnce :
      (q : PoolName) → Ensures (Both th) (asthread_th_add_to_pool fuel th q) (λ a. IsOnce)
  unfolding asthread_th_add_to_pool
  asthread_th_add_to_pool-IsOnce q =
      Ensures-bind (λ t w. Both th w × (w.threads th ≡ some t)) (get_thread th) _
        (Ensures-get_thread (Both th) th)
        (λ t.
          Ensures-if _ _ (is_stop t.status) _ _ (λ s. Ensures-pure _ _ tt (λ w h. h.0.0))
            (λ live.
              Ensures-bind (λ a. IsOnce) (put_thread th _) _
                (Ensures-pre _ _ _ _ (λ w h. (Both-put w th _ h.0 live).0)
                  (Ensures-put_thread IsOnce th _))
                (λ _.
                  Ensures-Calm IsOnce (insert_node fuel th q) IsOnce-Calm
                    (insert_node-IsCalm fuel th q))))

  -- A write that leaves the thread unstopped, and then the pool.
  to_pool :
      (g : Thread → Thread) (q : PoolName)
      → ((t : Thread) → is_stop (g t).status ≡ false)
      → Ensures
          (Both th)
          (get_thread th >>= λ t. put_thread th (some (g t)) >> asthread_th_add_to_pool fuel th q)
          (λ a. IsOnce)
  to_pool g q live =
      Ensures-bind (λ t w. Both th w × (w.threads th ≡ some t)) (get_thread th) _
        (Ensures-get_thread (Both th) th)
        (λ t.
          Ensures-bind (λ a. Both th) (put_thread th (some (g t))) _
            (Ensures-pre _ _ _ _ (λ w h. Both-put w th (g t) h.0 (live t))
              (Ensures-put_thread (Both th) th (some (g t))))
            (λ _. asthread_th_add_to_pool-IsOnce q))

  pub asthread_th_to_iowait-IsOnce :
      (et : ℕ) (q : PoolName) → Ensures (Both th) (asthread_th_to_iowait fuel th et q) (λ a. IsOnce)
  unfolding asthread_th_to_iowait
  asthread_th_to_iowait-IsOnce et q =
      to_pool (λ t. record t { et = et; status = run }) q (λ t. refl)

  pub asthread_th_to_sleep-IsOnce :
      (et : ℕ) (q : PoolName) → Ensures (Both th) (asthread_th_to_sleep fuel th et q) (λ a. IsOnce)
  unfolding asthread_th_to_sleep
  asthread_th_to_sleep-IsOnce et q =
      to_pool (λ t. record t { et = et; status = sleep }) q (λ t. refl)

-- The thread is stopped and in no pool, but not yet in the list.
abbrev Pending : Ptr → World → Type 0
Pending th w = IsOnceBut th w × IsStopped (w.threads th)

Distinct-append :
    (x : Ptr) (xs : List Ptr) → has x xs ≡ false → Distinct xs → Distinct (xs ++ (x ∷ []))
Distinct-append x [] out d = (refl, tt)
Distinct-append x (y ∷ ys) out (once, d) =
    (ground (arith, has-append y ys (x ∷ [])), Distinct-append x ys (ground arith) d)

push-IsOnce :
    (w : World) (th : Ptr) → Pending th w → IsOnce (record w { stop = w.stop ++ (th ∷ []) })
push-IsOnce w th (is, s) = record {
  distinct = Distinct-append th w.stop is.absent is.distinct;
  in_stop = λ p h. elim (Bool-cases (p == th)) [
    | inl here ↦ let q : p ≡ th = ground arith in subst (λ x. IsStopped (w.threads x)) (sym q) s
    | inr away ↦ is.in_stop p (ground (arith, has-append p w.stop (th ∷ [])))
  ];
  stopped = λ p t e st. elim (Bool-cases (p == th)) [
    | inl here ↦ ground (arith, has-append p w.stop (th ∷ []))
    | inr away ↦ ground (arith, has-append p w.stop (th ∷ []), is.stopped p t)
  ];
}

module _ (fuel : ℕ) (th : Ptr) where
  append_stop-IsOnce : Ensures (Pending th) (append_stop th) (λ a. IsOnce)
  unfolding append_stop modify
  append_stop-IsOnce = record { at = λ w h. push-IsOnce w th h }

  asthread_th_add_to_array-IsOnce :
      Ensures (Pending th) (asthread_th_add_to_array fuel th) (λ a. IsOnce)
  unfolding asthread_th_add_to_array
  asthread_th_add_to_array-IsOnce =
      Ensures-bind (λ a. Pending th) (asthread_th_del_from_pool fuel th) (λ _. append_stop th)
        (Ensures-Calm (Pending th) _
          (λ w w' c h. (IsOnceBut-Calm w w' c th h.0, IsStopped-Calm w w' c th h.1))
          (asthread_th_del_from_pool-IsCalm fuel th))
        (λ _. append_stop-IsOnce)

  written :
      (w : World) (t : Thread)
      → is_stop t.status ≡ true
      → t.pool ≡ none
      → Both th w
      → Pending th (record w { threads = update w.threads th (some t) })
  written w t s p both = (
    IsOnceBut-put w th _ (IsOnceBut-live w th both),
    subst IsStopped (sym (update_self w.threads th (some t))) (s, p),
  )

  pub asthread_th_to_stop-IsOnce : Ensures (Both th) (asthread_th_to_stop fuel th) (λ a. IsOnce)
  unfolding asthread_th_to_stop
  asthread_th_to_stop-IsOnce =
      Ensures-bind (λ t w. Both th w × (w.threads th ≡ some t)) (get_thread th) _
        (Ensures-get_thread (Both th) th)
        (λ t.
          Ensures-bind (λ a. Pending th) (put_thread th _) (λ _. asthread_th_add_to_array fuel th)
            (Ensures-pre _ _ _ _
              (λ w h. written w (record t { status = stop; pool = none }) refl refl h.0)
              (Ensures-put_thread (Pending th) th _))
            (λ _. asthread_th_add_to_array-IsOnce))
