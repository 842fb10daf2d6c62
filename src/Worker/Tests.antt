-- ===== src/Worker/Tests.antt =====
-- c/src/mw_worker.c on a small worker: two connections wait, the first thread waits for input, and
-- the second one ends.
use artorias.Prelude.{
  ℕ, ◌≡◌, refl, sym, ap, ◌∙◌, true, false, ◌||◌, Option, none, some, List, [], ◌∷◌, ◌==◌,
  if◌then◌else◌,
}
use artorias.RbTree.Store.{Ptr, null, red, black}
use artorias.RbTree.Shape.{mk_node}
use artorias.Dlist
use artorias.Dlist.{links}
use artorias.World.{
  Status, ready, run, sleep, stop, simple, idle, PoolName, io_pool, sleep_pool, Res, Thread, World,
  Outcome, ended, crash, no_fuel, ◌>>=◌, get_thread, put_thread,
}
use artorias.World.Calm.{Calm, Calm-same}
use artorias.World.Keeps.{Holds}
use artorias.Worker.{
  Message, begin, resume_io, resume_io_error, resume_io_timeout, resume_sleep, for_io, ends, pos,
  process, Memp, Event, Ctx, Lua, collect, rounds, process_sleep,
}
use artorias.Worker.Stop.{NoneStopped, IsOnce}
use artorias.Worker.Once.Handlers.{collect-IsOnce}
use artorias.Worker.Freed.{process-crash, rounds-NoneStopped}

abbrev junk : Thread
junk = record {
  tid = 0;
  et = 0;
  pool = none;
  status = ready;
  mode = simple;
  mfd_res = null;
  head = null;
  tail = null;
}

abbrev junk_res : Res
junk_res = record { freef = false; fd = 0; status = idle; th = null }

-- The first of the addresses 101 and 102 that is free.
abbrev free_of : Option Thread → Option Thread → Option (Ptr × Thread)
free_of none o = some (101, junk)
free_of (some t) none = some (102, junk)
free_of (some t) (some u) = none

abbrev free_res_of : Option Res → Option Res → Option (Ptr × Res)
free_res_of none o = some (201, junk_res)
free_res_of (some t) none = some (202, junk_res)
free_res_of (some t) (some u) = none

abbrev memp : Memp
memp = record {
  new_thread = λ w. free_of (w.threads 101) (w.threads 102);
  new_res = λ w. free_res_of (w.ress 201) (w.ress 202);
}

abbrev lua : Lua
lua th begin w = (if th == 101 then for_io 201 true (pos 5) else ends, w)
lua th _ w = (ends, w)

abbrev ctx : Ctx
ctx = record { cfd_res = 200; conn_timeout = 60; in_events = 1; out_events = 4 }

abbrev world : World
world = record {
  threads = λ p. none;
  ress = λ p.
      if p == 200 then some (record { freef = false; fd = 3; status = idle; th = null }) else none;
  cells = λ p. if p == 101 || p == 102 then some (mk_node null null null red) else none;
  nodes = λ p. if p == 201 || p == 202 then some (links null null) else none;
  io_root = null;
  sleep_root = null;
  stop = [];
  cur_tid = 0;
  closed = [];
  clock = 1000;
}

abbrev accept : List (Event × List ℕ)
accept = (record { res = 200; err = false; hup = false; into = true; out = false }, 7 ∷ 8 ∷ []) ∷ []

calm : (th : Ptr) (msg : Message) (w : World) → Calm w (lua th msg w).1
calm th begin w = Calm-same w w refl refl
calm th (resume_io res input) w = Calm-same w w refl refl
calm th (resume_io_error res) w = Calm-same w w refl refl
calm th resume_io_timeout w = Calm-same w w refl refl
calm th resume_sleep w = Calm-same w w refl refl

abbrev address : Option (Ptr × Thread) → Ptr
address none = null
address (some (p, t)) = p

fresh : (w : World) (p : Ptr) (t : Thread) → memp.new_thread w ≡ some (p, t) → w.threads p ≡ none
fresh w p t e = among (w.threads 101) (w.threads 102) refl refl e
  where
    among :
        (o o' : Option Thread)
        → w.threads 101 ≡ o
        → w.threads 102 ≡ o'
        → free_of o o' ≡ some (p, t)
        → w.threads p ≡ none
    among none o' a b e = ap w.threads (sym (ap address e)) ∙ a
    among (some u) none a b e = ap w.threads (sym (ap address e)) ∙ b
    among (some u) (some v) a b e = cc

live : NoneStopped world
live p t e = absurd (no_some e)
  where
    no_some : {t : Thread} → none ≡ some t → ⊥
    no_some e = cc

abbrev stopped_in : {A : Type 0} → Outcome A → List ℕ
stopped_in (ended a w) = w.stop
stopped_in crash = 1 ∷ 1 ∷ []
stopped_in no_fuel = 1 ∷ 2 ∷ []

abbrev world_of : {A : Type 0} → Outcome A → World
world_of (ended a w) = w
world_of crash = world
world_of no_fuel = world

collected : stopped_in (collect lua memp (λ t. true) (λ f e. true) ctx 20 accept world) ≡ 102 ∷ []
unfolding collect artorias.Dlist.put artorias.RbTree.Store.put
collected = refl

collect-IsOnce_example :
    Holds (λ a. IsOnce) (collect lua memp (λ t. true) (λ f e. true) ctx 20 accept world)
collect-IsOnce_example =
    (collect-IsOnce lua memp (λ t. true) (λ f e. true) ctx 20 calm fresh accept).at world live

rounds-NoneStopped_example :
    Holds
      (λ a. NoneStopped)
      (rounds lua memp (λ t. true) (λ f e. true) ctx 20 (accept ∷ [] ∷ []) world)
rounds-NoneStopped_example =
    (rounds-NoneStopped lua memp (λ t. true) (λ f e. true) ctx 20 calm fresh (accept ∷ [] ∷ [])).at
      world live

ran :
    rounds lua memp (λ t. true) (λ f e. true) ctx 20 (accept ∷ []) world
    ≡ ended tt (world_of (rounds lua memp (λ t. true) (λ f e. true) ctx 20 (accept ∷ []) world))
unfolding rounds artorias.Dlist.put artorias.RbTree.Store.put
ran = refl

left :
    (world_of (rounds lua memp (λ t. true) (λ f e. true) ctx 20 (accept ∷ []) world)).stop
    ≡ 102 ∷ []
unfolding rounds artorias.Dlist.put artorias.RbTree.Store.put
left = refl

process-crash_example :
    process lua memp (λ t. true) (λ f e. true) ctx 20 (accept ∷ []) world ≡ crash
process-crash_example =
    process-crash lua memp (λ t. true) (λ f e. true) ctx 20 accept [] world _ ran
      (λ e. no_items (sym left ∙ e))
  where
    no_items : {xs : List ℕ} → 102 ∷ xs ≡ [] → ⊥
    no_items e = cc

-- Three threads are asleep until 100, 10 and 200; the time is 20.
abbrev asleep : ℕ → Thread
asleep et = record junk { et = et; pool = some sleep_pool; status = sleep }

abbrev sleepers : World
sleepers = record world {
  threads = λ p.
      if p == 110
      then some (asleep 100)
      else if p == 101
      then some (asleep 10)
      else if p == 112
      then some (asleep 200)
      else none;
  cells = λ p.
      if p == 110
      then some (mk_node null 101 112 black)
      else if p == 101 || p == 112
      then some (mk_node 110 null null red)
      else none;
  sleep_root = 110;
  clock = 20;
}

-- All three are resumed, and end: `rb_tree_remove_subtree` leaves the parent in the removed root, and
-- the visit goes on from there.
woken :
    stopped_in (process_sleep lua memp (λ t. true) (λ f e. true) ctx 20 sleepers)
    ≡ 101 ∷ 110 ∷ 112 ∷ []
unfolding process_sleep artorias.Dlist.put artorias.RbTree.Store.put artorias.World.update
woken = refl
