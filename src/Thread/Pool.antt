-- ===== src/Thread/Pool.antt =====
-- c/src/thread.c: `asthread_th_add_to_pool`, on a pool that is a red-black tree ordered by `et`.
use artorias.Prelude.{
  ℕ, ◌<◌, ◌≡◌, refl, sym, ◌∙◌, ap, subst, ◌≢◌, false, Option, some, [], arith, ◌==◌,
}
use mathlib.Core.Path.{fun_ext}
use artorias.RbTree.Store.{Ptr, null, black, Store, Run, done, fault, out_of_fuel, run_on, Cmd}
use artorias.RbTree.Shape.{Tree, inorder}
use artorias.RbTree.Trail.{count, Zip}
use artorias.RbTree.Balance.{color_of, IsRedBlack}
use artorias.RbTree.Link.{size}
use artorias.RbTree.Sorted.{IsSorted, insert, insert-IsSorted}
use artorias.RbTree.Insert.{rb_tree_insert, rb_tree_insert_case}
use artorias.RbTree.Add.{add, add-IsRepaired}
use artorias.World.{
  Thread, World, PoolName, io_pool, sleep_pool, Outcome, ended, continue, ◌>>=◌, gets, get_thread,
  put_thread, modify, present, update, root_of, with_tree, after_tree, on_pool,
}
use artorias.Thread.{is_stop, et_of, node_et_lt, insert_node, asthread_th_add_to_pool}

abbrev store_of : PoolName → World → Store
store_of q w = record { root = root_of q w; cell = w.cells }

-- The pool is a red-black tree whose threads stand in the order of their times `et`.
pub record IsPool (q : PoolName) (w : World) (t : Tree) : Type 0 where
  pub whole : Zip (store_of q w) [] t
  pub balanced : IsRedBlack t
  pub black_root : color_of t ≡ black
  pub sorted : IsSorted (et_of w) (inorder t)

-- What adding the thread `th` leaves: the pool with the thread at its place.
pub record IsQueued (q : PoolName) (w : World) (th : Ptr) (t : Tree) (r : Outcome (Unit {0}))
    : Type 0 where
  pub world : World
  pub tree : Tree
  pub returns : r ≡ ended tt world
  pub pool : IsPool q world tree
  pub order : inorder tree ≡ insert (et_of w) th (inorder t)
  pub times : et_of world ≡ et_of w

store_of-with_tree : (q : PoolName) (s : Store) (w : World) → store_of q (with_tree q s w) ≡ s
store_of-with_tree io_pool s w = refl
store_of-with_tree sleep_pool s w = refl

et_of-with_tree : (q : PoolName) (s : Store) (w : World) → et_of (with_tree q s w) ≡ et_of w
et_of-with_tree io_pool s w = refl
et_of-with_tree sleep_pool s w = refl

after_tree-with_tree :
    {A : Type 0} (q : PoolName) (s : Store) (w : World) (r : Run A)
    → after_tree q (with_tree q s w) r ≡ after_tree q w r
after_tree-with_tree io_pool s w (done a s') = refl
after_tree-with_tree sleep_pool s w (done a s') = refl
after_tree-with_tree q s w fault = refl
after_tree-with_tree q s w out_of_fuel = refl

-- Two commands on a pool, one after the other, are one.
after_tree-run_on :
    (q : PoolName) (w : World) (r : Run (Unit {0})) (n : Cmd (Unit {0}))
    → continue (after_tree q w r) (λ a. on_pool q n) ≡ after_tree q w (run_on r (λ a. n))
unfolding on_pool
after_tree-run_on q w (done a s) n =
    rw (store_of-with_tree q s w) (after_tree-with_tree q s w (n s))
after_tree-run_on q w fault n = refl
after_tree-run_on q w out_of_fuel n = refl

insert_node_lem :
    (fuel : ℕ) (th : Ptr) (q : PoolName) (w : World) (s : Store)
    → add (node_et_lt w) fuel th (store_of q w) ≡ done tt s
    → insert_node fuel th q w ≡ ended tt (with_tree q s w)
unfolding insert_node ◌>>=◌ gets on_pool
insert_node_lem fuel th q w s e =
    after_tree-run_on q w (rb_tree_insert (node_et_lt w) fuel th (store_of q w))
      (rb_tree_insert_case fuel th)
    ∙ ap (after_tree q w) e

insert_node-IsQueued :
    (fuel : ℕ) (th : Ptr) (q : PoolName) (w : World) (t : Tree)
    → IsPool q w t
    → th ≢ null
    → count th t ≡ 0
    → size t < fuel
    → IsQueued q w th t (insert_node fuel th q w)
insert_node-IsQueued fuel th q w t p ne out enough =
    let k =
      add-IsRepaired (et_of w) fuel (store_of q w) t th p.whole p.balanced p.black_root p.sorted ne
        out enough in
    let sorted : IsSorted (et_of w) (inorder k.tree) =
      subst (IsSorted (et_of w)) (sym k.order)
        (insert-IsSorted (et_of w) th (inorder t) p.sorted) in
    record {
      world = with_tree q k.store w;
      tree = k.tree;
      returns = insert_node_lem fuel th q w k.store k.returns;
      pool = record {
        whole = subst (λ s. Zip s [] k.tree) (sym (store_of-with_tree q k.store w)) k.whole;
        balanced = k.balanced;
        black_root = k.black_root;
        sorted =
            subst (λ f. IsSorted f (inorder k.tree)) (sym (et_of-with_tree q k.store w)) sorted;
      };
      order = k.order;
      times = et_of-with_tree q k.store w;
    }

et_of-put_thread :
    (w : World) (th : Ptr) (t : Thread) (q : PoolName)
    → w.threads th ≡ some t
    → et_of (record w { threads = update w.threads th (some (record t { pool = some q })) })
      ≡ et_of w
unfolding update
et_of-put_thread w th t q e = fun_ext (λ p. ground arith)

get_thread-some :
    (w : World) (th : Ptr) (t : Thread)
    → th ≢ null
    → w.threads th ≡ some t
    → get_thread th w ≡ ended t w
unfolding get_thread ◌>>=◌ gets present
get_thread-some w th t ne here =
    let not_null : (th == null) ≡ false = ground arith in rw (not_null, here)

IsPool-threads :
    (q : PoolName) (w : World) (t : Tree) (threads : Ptr → Option Thread)
    → et_of (record w { threads = threads }) ≡ et_of w
    → IsPool q w t
    → IsPool q (record w { threads = threads }) t
IsPool-threads io_pool w t threads same p = record {
  whole = p.whole;
  balanced = p.balanced;
  black_root = p.black_root;
  sorted = subst (λ f. IsSorted f (inorder t)) (sym same) p.sorted;
}
IsPool-threads sleep_pool w t threads same p = record {
  whole = p.whole;
  balanced = p.balanced;
  black_root = p.black_root;
  sorted = subst (λ f. IsSorted f (inorder t)) (sym same) p.sorted;
}

-- Let a pool of the worker be a red-black tree whose threads stand in the order of their times
-- `et`. For a thread in memory that has not stopped and is not in the tree, and more fuel than the
-- tree has nodes, `asthread_th_add_to_pool` ends without a crash: the pool is so again, with the
-- thread behind those whose times are not later than its own, and no time has changed.
pub asthread_th_add_to_pool-IsQueued :
    (fuel : ℕ) (th : Ptr) (q : PoolName) (w : World) (t : Tree) (thread : Thread)
    → IsPool q w t
    → w.threads th ≡ some thread
    → is_stop thread.status ≡ false
    → th ≢ null
    → count th t ≡ 0
    → size t < fuel
    → IsQueued q w th t (asthread_th_add_to_pool fuel th q w)
unfolding asthread_th_add_to_pool ◌>>=◌ put_thread modify
asthread_th_add_to_pool-IsQueued fuel th q w t thread p here going ne out enough =
    let w1 : World = record w {
      threads = update w.threads th (some (record thread { pool = some q }));
    } in
    let same : et_of w1 ≡ et_of w = et_of-put_thread w th thread q here in
    let p1 : IsPool q w1 t = IsPool-threads q w t _ same p in
    let k = insert_node-IsQueued fuel th q w1 t p1 ne out enough in
    record {
      world = k.world;
      tree = k.tree;
      returns = rw (get_thread-some w th thread ne here, going) k.returns;
      pool = k.pool;
      order = k.order ∙ ap (λ f. insert f th (inorder t)) same;
      times = k.times ∙ same;
    }
