-- ===== src/Worker/Freed.antt =====
-- c/src/mw_worker.c: `process_stop_threads`, the loop of `process`, and what comes after it.
use artorias.Prelude.{
  ℕ, ◌≡◌, ◌≢◌, refl, sym, ◌∙◌, ap, inl, inr, Bool, true, false, Option, none, some, List, [], ◌∷◌,
  ◌==◌, arith, Bool-cases,
}
use artorias.RbTree.Store.{Ptr, null}
use artorias.Dlist.Segment.{has}
use artorias.World.{
  Thread, World, ended, crash, ◌>>=◌, ◌>>◌, gets, present, update, get_thread, put_thread, put_res,
}
use artorias.World.Calm.{Calm, Ensures-Calm, Like, calm_rules}
use artorias.World.Keeps.{
  Holds, Ensures, Ensures-bind, Ensures-pure, Ensures-pre, Ensures-post, Ensures-put_thread, Keeps,
  Holds-any, Keeps-pure, Keeps-bind, Keeps-Ensures,
}
use artorias.Thread.{is_stop, asthread_th_free}
use artorias.Thread.Calm.{asthread_th_free-IsCalm}
use artorias.Worker.{
  Message, Memp, Event, Ctx, Lua, dispose, dispose_all, process_stop_threads, collect, round,
  rounds, process,
}
use artorias.Worker.Stop.{NoneStopped, IsOnce, before}
use artorias.Worker.Once.Handlers.{collect-IsOnce}

-- Every stopped thread is in `xs`.
abbrev StopIn : List Ptr → World → Type 0
StopIn xs w =
    (p : Ptr) (t : Thread) → w.threads p ≡ some t → is_stop t.status ≡ true → has p xs ≡ true

StopIn-Calm : (xs : List Ptr) (w w' : World) → Calm w w' → StopIn xs w → StopIn xs w'
StopIn-Calm xs w w' calm h p u e s =
    let (t, e', same) = before (w.threads p) (w'.threads p) u (calm.threads p) e in
    h p t e' (sym same ∙ s)

-- The threads of the list `stop`, which is `xs`, are freed but for those of `ys`.
record IsFreed (xs ys : List Ptr) (w : World) : Type 0 where
  listed : w.stop ≡ xs
  gone : (p : Ptr) → has p xs ≡ true → has p ys ≡ false → w.threads p ≡ none

none-Like : (o o' : Option Thread) → Like o o' → o ≡ none → o' ≡ none
none-Like none none l e = refl
none-Like none (some u) l e = absurd l
none-Like (some t) o' l e = cc

IsFreed-Calm : (xs ys : List Ptr) (w w' : World) → Calm w w' → IsFreed xs ys w → IsFreed xs ys w'
IsFreed-Calm xs ys w w' calm h = record {
  listed = calm.stop ∙ h.listed;
  gone = λ p a b. none-Like (w.threads p) (w'.threads p) (calm.threads p) (h.gone p a b);
}

module _ (lua : Lua) (memp : Memp) (ref : ℕ → Bool) (ctl : ℕ → ℕ → Bool) (ctx : Ctx)
    (fuel : ℕ) where
  -- What calm commands keep, and what is so once the thread is gone.
  dispose-Ensures :
      (P Q : World → Type 0) (th : Ptr)
      → ((w w' : World) → Calm w w' → P w → P w')
      → ((w : World) → P w → Q (record w { threads = update w.threads th none }))
      → Ensures P (dispose lua memp ref ctl ctx fuel th) (λ a. Q)
  unfolding dispose
  dispose-Ensures P Q th stable gone =
      Ensures-bind (λ a. P) (asthread_th_free fuel th) _
        (Ensures-Calm P _ stable (asthread_th_free-IsCalm fuel th))
        (λ _.
          Ensures-bind (λ a. P) (get_thread th) (λ t. put_res t.mfd_res none >> put_thread th none)
            (Ensures-Calm P _ stable (search calm_rules))
            (λ t.
              Ensures-bind (λ a. P) (put_res t.mfd_res none) (λ _. put_thread th none)
                (Ensures-Calm P _ stable (search calm_rules))
                (λ _. Ensures-pre _ _ _ _ gone (Ensures-put_thread Q th none))))

  -- `dispose_all` of what is left to do, `R xs`, for a list.
  dispose_all-Ensures :
      (R : List Ptr → World → Type 0)
      → ((xs : List Ptr) (w w' : World) → Calm w w' → R xs w → R xs w')
      → ((th : Ptr) (xs : List Ptr) (w : World)
          → R (th ∷ xs) w
          → R xs (record w { threads = update w.threads th none }))
      → (xs : List Ptr) → Ensures (R xs) (dispose_all lua memp ref ctl ctx fuel xs) (λ a. R [])
  unfolding dispose_all
  dispose_all-Ensures R stable gone [] = Ensures-pure _ _ tt (λ w h. h)
  dispose_all-Ensures R stable gone (th ∷ xs) =
      Ensures-bind (λ a. R xs) (dispose lua memp ref ctl ctx fuel th)
        (λ _. dispose_all lua memp ref ctl ctx fuel xs)
        (dispose-Ensures (R (th ∷ xs)) (R xs) th (stable (th ∷ xs)) (gone th xs))
        (λ _. dispose_all-Ensures R stable gone xs)

  StopIn-gone :
      (th : Ptr) (xs : List Ptr) (w : World)
      → StopIn (th ∷ xs) w
      → StopIn xs (record w { threads = update w.threads th none })
  unfolding update
  StopIn-gone th xs w h p t e s = elim (Bool-cases (p == th)) [
    | inl here ↦ absurd (let e' : none ≡ some t = rw here at e in no_some e')
    | inr away ↦ let e' : w.threads p ≡ some t = rw away at e in ground (arith, h p t e' s)
  ]
    where
      no_some : {t : Thread} → none ≡ some t → ⊥
      no_some e = cc

  process_stop_threads-NoneStopped :
      Ensures IsOnce (process_stop_threads lua memp ref ctl ctx fuel) (λ a. NoneStopped)
  unfolding process_stop_threads gets ◌>>=◌
  process_stop_threads-NoneStopped = record {
    at = λ w is.
        (Ensures-post (StopIn w.stop) _ (λ a. NoneStopped) _ (λ a w' h. none_in w' h)
            (dispose_all-Ensures StopIn StopIn-Calm StopIn-gone w.stop)).at
          w is.stopped;
  }
    where
      none_in : (w : World) → StopIn [] w → NoneStopped w
      none_in w h p t e = elim (Bool-cases (is_stop t.status)) [
        | inl s ↦ let none_there : false ≡ true = h p t e s in cc
        | inr live ↦ live
      ]

  IsFreed-gone :
      (all : List Ptr) (th : Ptr) (xs : List Ptr) (w : World)
      → IsFreed all (th ∷ xs) w
      → IsFreed all xs (record w { threads = update w.threads th none })
  unfolding update
  IsFreed-gone all th xs w h = record {
    listed = h.listed;
    gone = λ p a b. elim (Bool-cases (p == th)) [
      | inl here ↦ rw here refl
      | inr away ↦ rw away (h.gone p a (ground arith))
    ];
  }

  started : (w : World) → IsFreed w.stop w.stop w
  started w = record { listed = refl; gone = λ p a b. cc }

  relisted : (xs : List Ptr) (w : World) → IsFreed xs [] w → IsFreed w.stop [] w
  relisted xs w h = record {
    listed = refl;
    gone = λ p a b. h.gone p (ap (has p) (sym h.listed) ∙ a) b;
  }

  -- After `process_stop_threads` the threads of the list are gone, and the list still holds them.
  process_stop_threads-IsFreed :
      Ensures
        (λ w. Unit)
        (process_stop_threads lua memp ref ctl ctx fuel)
        (λ a w. IsFreed w.stop [] w)
  unfolding process_stop_threads gets ◌>>=◌
  process_stop_threads-IsFreed = record {
    at = λ w h.
        (Ensures-post (IsFreed w.stop w.stop) _ (λ a w'. IsFreed w'.stop [] w') _
            (λ a w' h'. relisted w.stop w' h')
            (dispose_all-Ensures (IsFreed w.stop) (λ xs. IsFreed-Calm w.stop xs)
              (IsFreed-gone w.stop) w.stop)).at
          w (started w);
  }

  get_thread-none : (th : Ptr) (w : World) → w.threads th ≡ none → get_thread th w ≡ crash
  unfolding get_thread ◌>>=◌ gets present
  get_thread-none th w e = elim (Bool-cases (th == null)) [
    | inl here ↦ rw here refl
    | inr away ↦ rw (away, e) refl
  ]

  dispose-none :
      (th : Ptr) (w : World) → w.threads th ≡ none → dispose lua memp ref ctl ctx fuel th w ≡ crash
  unfolding dispose ◌>>=◌ asthread_th_free
  dispose-none th w e = rw (get_thread-none th w e) refl

  dispose_all-none :
      (th : Ptr) (ths : List Ptr) (w : World)
      → w.threads th ≡ none
      → dispose_all lua memp ref ctl ctx fuel (th ∷ ths) w ≡ crash
  unfolding dispose_all ◌>>=◌
  dispose_all-none th ths w e = rw (dispose-none th w e) refl

  again-crash :
      (w : World)
      → IsFreed w.stop [] w
      → w.stop ≢ []
      → process_stop_threads lua memp ref ctl ctx fuel w ≡ crash
  unfolding process_stop_threads gets ◌>>=◌
  again-crash w h some_left = on w.stop refl
    where
      on : (xs : List Ptr) → w.stop ≡ xs → dispose_all lua memp ref ctl ctx fuel xs w ≡ crash
      on [] e = absurd (some_left e)
      on (th ∷ ths) e = dispose_all-none th ths w (h.gone th (ap (has th) e ∙ ground arith) refl)

  round-IsFreed :
      (events : List (Event × List ℕ))
      → Ensures (λ w. Unit) (round lua memp ref ctl ctx fuel events) (λ a w. IsFreed w.stop [] w)
  unfolding round
  round-IsFreed events =
      Ensures-bind (λ a w. Unit) (collect lua memp ref ctl ctx fuel events)
        (λ _. process_stop_threads lua memp ref ctl ctx fuel)
        (record { at = λ w h. Holds-any (collect lua memp ref ctl ctx fuel events w) })
        (λ _. process_stop_threads-IsFreed)

  rounds-IsFreed :
      (events : List (Event × List ℕ)) (rest : List (List (Event × List ℕ)))
      → Ensures
          (λ w. Unit)
          (rounds lua memp ref ctl ctx fuel (events ∷ rest))
          (λ a w. IsFreed w.stop [] w)
  unfolding rounds
  rounds-IsFreed events [] =
      Ensures-bind (λ a w. IsFreed w.stop [] w) (round lua memp ref ctl ctx fuel events)
        (λ _. rounds lua memp ref ctl ctx fuel []) (round-IsFreed events)
        (λ _. Ensures-pure _ _ tt (λ w h. h))
  rounds-IsFreed events (events' ∷ rest) =
      Ensures-bind (λ a w. Unit) (round lua memp ref ctl ctx fuel events)
        (λ _. rounds lua memp ref ctl ctx fuel (events' ∷ rest))
        (Ensures-post _ _ _ _ (λ a w h. tt) (round-IsFreed events))
        (λ _. rounds-IsFreed events' rest)

  -- When the loop of `process` has run a round at least and ends with a list of stopped threads
  -- that is not empty, then `process` crashes: its second call of `process_stop_threads` reads a
  -- thread that the last round has freed.
  pub process-crash :
      (events : List (Event × List ℕ)) (rest : List (List (Event × List ℕ))) (w w' : World)
      → rounds lua memp ref ctl ctx fuel (events ∷ rest) w ≡ ended tt w'
      → w'.stop ≢ []
      → process lua memp ref ctl ctx fuel (events ∷ rest) w ≡ crash
  unfolding process ◌>>=◌
  process-crash events rest w w' e some_left =
      let h : Holds (λ a w. IsFreed w.stop [] w) (ended tt w') =
        rw e at ((rounds-IsFreed events rest).at w tt) in
      rw (e, again-crash w' h some_left) refl

  module _ (calm : (th : Ptr) (msg : Message) (w : World) → Calm w (lua th msg w).1)
      (fresh : (w : World) (p : Ptr) (t : Thread)
        → memp.new_thread w ≡ some (p, t)
        → w.threads p ≡ none) where
    round-NoneStopped :
        (events : List (Event × List ℕ))
        → Keeps NoneStopped (round lua memp ref ctl ctx fuel events)
    unfolding round
    round-NoneStopped events = Keeps-Ensures _ (
        Ensures-bind (λ a. IsOnce) (collect lua memp ref ctl ctx fuel events)
          (λ _. process_stop_threads lua memp ref ctl ctx fuel)
          (collect-IsOnce lua memp ref ctl ctx fuel calm fresh events)
          (λ _. process_stop_threads-NoneStopped))

    -- Under the same conditions on the Lua code and on `memp_alloc`, any number of rounds of the
    -- loop of `process` from a world in which no thread is stopped leave, where they end, a world
    -- in which no thread is stopped: each stopped thread has been freed.
    pub rounds-NoneStopped :
        (loop : List (List (Event × List ℕ)))
        → Keeps NoneStopped (rounds lua memp ref ctl ctx fuel loop)
    unfolding rounds
    rounds-NoneStopped [] = Keeps-pure tt
    rounds-NoneStopped (events ∷ rest) =
        Keeps-bind _ _ (round-NoneStopped events) (λ _. rounds-NoneStopped rest)
