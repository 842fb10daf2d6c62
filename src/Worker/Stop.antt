-- ===== src/Worker/Stop.antt =====
-- c/src/thread.h: the list of stopped threads, and the three ways in which a thread is left.
use artorias.Prelude.{
  ◌≡◌, ◌≢◌, refl, sym, ap, ◌∙◌, inl, inr, true, false, Option, none, some, List, [], ◌∷◌, ◌==◌,
  arith, Bool-cases,
}
use artorias.RbTree.Store.{Ptr}
use artorias.Dlist.Segment.{has}
use artorias.World.Calm.{Calm, Like}
use artorias.World.{Thread, World, update}
use artorias.Thread.{is_stop}

abbrev pub Distinct : List Ptr → Type 0
Distinct [] = Unit
Distinct (x ∷ xs) = (has x xs ≡ false) × Distinct xs

-- A stopped thread in no pool.
abbrev pub IsStopped : Option Thread → Type 0
IsStopped none = ⊥
IsStopped (some t) = (is_stop t.status ≡ true) × (t.pool ≡ none)

-- The list of stopped threads holds exactly those, each once, and none of them is in a pool.
pub record IsOnce (w : World) : Type 0 where
  pub distinct : Distinct w.stop
  pub in_stop : (p : Ptr) → has p w.stop ≡ true → IsStopped (w.threads p)
  pub stopped :
      (p : Ptr) (t : Thread) → w.threads p ≡ some t → is_stop t.status ≡ true → has p w.stop ≡ true

abbrev pub NoneStopped : World → Type 0
NoneStopped w = (p : Ptr) (t : Thread) → w.threads p ≡ some t → is_stop t.status ≡ false

-- The same, but for the thread `th`, which is not in the list.
pub record IsOnceBut (th : Ptr) (w : World) : Type 0 where
  pub distinct : Distinct w.stop
  pub absent : has th w.stop ≡ false
  pub in_stop : (p : Ptr) → has p w.stop ≡ true → IsStopped (w.threads p)
  pub stopped :
      (p : Ptr) (t : Thread)
      → p ≢ th
      → w.threads p ≡ some t
      → is_stop t.status ≡ true
      → has p w.stop ≡ true

abbrev pub IsLive : Ptr → World → Type 0
IsLive th w = (t : Thread) × (w.threads th ≡ some t) × (is_stop t.status ≡ false)

abbrev pub Both : Ptr → World → Type 0
Both th w = IsOnce w × IsLive th w

module _ (w : World) (th : Ptr) where
  not_listed :
      (o : Option Thread) → w.threads th ≡ o → (IsStopped o → ⊥) → IsOnce w → has th w.stop ≡ false
  not_listed o e not_stopped is = elim (Bool-cases (has th w.stop)) [
    | inl there ↦ absurd (not_stopped (let s : IsStopped o = rw e at (is.in_stop th there) in s))
    | inr away ↦ away
  ]

  but_of : IsOnce w → has th w.stop ≡ false → IsOnceBut th w
  but_of is away = record {
    distinct = is.distinct;
    absent = away;
    in_stop = is.in_stop;
    stopped = λ p t ne. is.stopped p t;
  }

  pub IsOnceBut-live : Both th w → IsOnceBut th w
  IsOnceBut-live (is, (t, e, s)) = but_of is (not_listed (some t) e (λ h. cc) is)

  pub IsOnceBut-none : IsOnce w → w.threads th ≡ none → IsOnceBut th w
  IsOnceBut-none is e = but_of is (not_listed none e (λ h. h) is)

  pub IsOnce-but :
      IsOnceBut th w → ((t : Thread) → w.threads th ≡ some t → is_stop t.status ≡ false) → IsOnce w
  IsOnce-but is live = record {
    distinct = is.distinct;
    in_stop = is.in_stop;
    stopped = λ p t e s. elim (Bool-cases (p == th)) [
      | inl here ↦
          let q : p ≡ th = ground arith in
          let e' : w.threads th ≡ some t = ap w.threads (sym q) ∙ e in cc (live t e')
      | inr away ↦ is.stopped p t (λ q. ground arith) e s
    ];
  }

  -- Whatever is written at `th`.
  pub IsOnceBut-put :
      (o : Option Thread)
      → IsOnceBut th w
      → IsOnceBut th (record w { threads = update w.threads th o })
  unfolding update
  IsOnceBut-put o is = record {
    distinct = is.distinct;
    absent = is.absent;
    in_stop = λ p h. elim (Bool-cases (p == th)) [
      | inl here ↦
          let q : p ≡ th = ground arith in
          let h' : has th w.stop ≡ true = ap (λ x. has x w.stop) (sym q) ∙ h in cc (is.absent)
      | inr away ↦ rw away (is.in_stop p h)
    ];
    stopped = λ p t ne e s.
        let away : (p == th) ≡ false = ground arith in
        let e' : w.threads p ≡ some t = rw away at e in is.stopped p t ne e' s;
  }

IsStopped-Like : (o o' : Option Thread) → Like o o' → IsStopped o → IsStopped o'
IsStopped-Like none o' l s = absurd s
IsStopped-Like (some t) none l s = l
IsStopped-Like (some t) (some u) (st, p) (s, q) = (ap is_stop st ∙ s, p q)

-- A stopped thread was stopped before.
pub before :
    (o o' : Option Thread) (u : Thread)
    → Like o o'
    → o' ≡ some u
    → (t : Thread) × (o ≡ some t) × (is_stop u.status ≡ is_stop t.status)
before none none u l e = cc
before none (some v) u l e = absurd l
before (some t) none u l e = absurd l
before (some t) (some v) u (st, p) e =
    let same : v ≡ u = ground arith in
    (t, refl, ap (λ (x : Thread). is_stop x.status) (sym same) ∙ ap is_stop st)

module _ (w w' : World) (calm : Calm w w') where
  was_listed : (p : Ptr) → has p w'.stop ≡ has p w.stop
  was_listed p = ap (has p) calm.stop

  still-IsStopped :
      ((p : Ptr) → has p w.stop ≡ true → IsStopped (w.threads p))
      → (p : Ptr) → has p w'.stop ≡ true
      → IsStopped (w'.threads p)
  still-IsStopped h p there =
      IsStopped-Like (w.threads p) (w'.threads p) (calm.threads p)
        (h p (sym (was_listed p) ∙ there))

  pub IsOnce-Calm : IsOnce w → IsOnce w'
  IsOnce-Calm is = record {
    distinct = rw calm.stop is.distinct;
    in_stop = still-IsStopped is.in_stop;
    stopped = λ p u e s.
        let (t, e', same) = before (w.threads p) (w'.threads p) u (calm.threads p) e in
        was_listed p ∙ is.stopped p t e' (sym same ∙ s);
  }

  pub IsOnceBut-Calm : (th : Ptr) → IsOnceBut th w → IsOnceBut th w'
  IsOnceBut-Calm th is = record {
    distinct = rw calm.stop is.distinct;
    absent = was_listed th ∙ is.absent;
    in_stop = still-IsStopped is.in_stop;
    stopped = λ p u ne e s.
        let (t, e', same) = before (w.threads p) (w'.threads p) u (calm.threads p) e in
        was_listed p ∙ is.stopped p t ne e' (sym same ∙ s);
  }

  pub IsStopped-Calm : (th : Ptr) → IsStopped (w.threads th) → IsStopped (w'.threads th)
  IsStopped-Calm th s = IsStopped-Like (w.threads th) (w'.threads th) (calm.threads th) s

  pub IsLive-Calm : (th : Ptr) → IsLive th w → IsLive th w'
  IsLive-Calm th (t, e, s) = live (w'.threads th) refl
    where
      live : (o : Option Thread) → w'.threads th ≡ o → IsLive th w'
      live none e' = absurd (let l : Like (some t) none = rw (e, e') at (calm.threads th) in l)
      live (some u) e' =
          let l : Like (some t) (some u) = rw (e, e') at (calm.threads th) in
          (u, e', ap is_stop l.0 ∙ s)
