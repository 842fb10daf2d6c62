-- ===== src/Thread/Tests.antt =====
-- c/src/thread.c: a thread with a resource that is registered for events.
use artorias.Prelude.{ℕ, arith, refl, true, none, some, [], ◌==◌, if◌then◌else◌}
use artorias.RbTree.Store.{null, black}
use artorias.RbTree.Shape.{Tree, leaf, node, mk_node}
use artorias.Thread.Pool.{IsPool, IsQueued, asthread_th_add_to_pool-IsQueued}
use artorias.Dlist.{links}
use artorias.World.{Res, ev, Thread, simple, run, sleep, sleep_pool, World}
use artorias.World.Keeps.{Holds}
use artorias.Thread.{asthread_th_add_to_pool, asthread_remove_res_from_epfd}
use artorias.Thread.Armed.{IsArmed, asthread_remove_res_from_epfd-IsArmed}

abbrev res : Res
res = record { freef = true; fd = 7; status = ev; th = 101 }

abbrev thread : Thread
thread = record {
  tid = 1;
  et = 0;
  pool = none;
  status = run;
  mode = simple;
  mfd_res = 201;
  head = 201;
  tail = 201;
}

abbrev world : World
world = record {
  threads = λ p. if p == 101 then some thread else none;
  ress = λ p. if p == 201 then some res else none;
  cells = λ p. none;
  nodes = λ p. if p == 201 then some (links null null) else none;
  io_root = null;
  sleep_root = null;
  stop = [];
  cur_tid = 1;
  closed = [];
  clock = 1000;
}

asthread_remove_res_from_epfd-IsArmed_example :
    Holds (λ a. IsArmed 201) (asthread_remove_res_from_epfd (λ f e. true) 5 101 world)
asthread_remove_res_from_epfd-IsArmed_example =
    (asthread_remove_res_from_epfd-IsArmed 201 (λ f e. true) 5 101).at world (res, refl, refl)

-- A pool with one thread, which another thread joins.
abbrev sleeper : ℕ → Thread
sleeper et = record {
  tid = 1;
  et = et;
  pool = none;
  status = sleep;
  mode = simple;
  mfd_res = null;
  head = null;
  tail = null;
}

abbrev pool_world : World
pool_world = record {
  threads =
      λ p. if p == 101 then some (sleeper 50) else if p == 102 then some (sleeper 40) else none;
  ress = λ p. none;
  cells = λ p. if p == 101 then some (mk_node null null null black) else none;
  nodes = λ p. none;
  io_root = null;
  sleep_root = 101;
  stop = [];
  cur_tid = 1;
  closed = [];
  clock = 1000;
}

abbrev pool_tree : Tree
pool_tree = node leaf 101 black leaf

abbrev pool_world-IsPool : IsPool sleep_pool pool_world pool_tree
pool_world-IsPool = record {
  whole = record {
    at_root = refl;
    focus = ((λ e. absurd (omega arith)), refl, tt, tt);
    around = tt;
    once = λ x. ground arith;
  };
  balanced = (refl, tt, tt, tt);
  black_root = refl;
  sorted = (tt, tt);
}

asthread_th_add_to_pool-IsQueued_example :
    IsQueued sleep_pool pool_world 102 pool_tree
      (asthread_th_add_to_pool 2 102 sleep_pool pool_world)
asthread_th_add_to_pool-IsQueued_example =
    asthread_th_add_to_pool-IsQueued 2 102 sleep_pool pool_world pool_tree (sleeper 40)
      pool_world-IsPool refl refl (λ e. absurd (omega arith)) refl (omega arith)
