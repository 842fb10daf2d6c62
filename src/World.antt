-- ===== src/World.antt =====
-- c/src/thread.h and c/src/mw_worker.h: the threads and resources at their addresses, the two pools, and
-- what a worker keeps. Commands read and write them; an access through NULL, or through an address
-- that holds no such object, is a crash.
pub mod Travel
pub mod Keeps
pub mod Calm
pub mod Visit
use artorias.Prelude.{ℕ, ◌≡◌, Bool, Option, none, some, List, ◌==◌, if◌then◌else◌}
use artorias.RbTree.Store.{Ptr, null, Node, Store, Run, done, fault, out_of_fuel, Cmd}
use artorias.Dlist
use artorias.Dlist.{Dlist}

-- `AS_TSTATUS_…`, `AS_TMODE_…` and `AS_RSTATUS_…`
pub data Status : Type 0 where
  ready run sleep stop : Status

pub data Mode : Type 0 where
  simple loop_socks : Mode

pub data ResStatus : Type 0 where
  idle ev : ResStatus

-- The pools of a worker: `io_pool` and `sleep_pool`.
pub data PoolName : Type 0 where
  io_pool sleep_pool : PoolName

-- `as_thread_res_t`: the function `freef` is there or not, and `fdf` returns `fd`. Its list node is in
-- the memory of `nodes`, at the same address.
pub record Res : Type 0 where
  pub freef : Bool
  pub fd : ℕ
  pub status : ResStatus
  pub th : Ptr

-- `as_thread_t`: the node `p_idx` is in the memory of `cells`, at the same address; `head` and `tail`
-- are those of `resl`.
pub record Thread : Type 0 where
  pub tid : ℕ
  pub et : ℕ
  pub pool : Option PoolName
  pub status : Status
  pub mode : Mode
  pub mfd_res : Ptr
  pub head : Ptr
  pub tail : Ptr

-- `stop` is the part of the array `stop_threads` that is in use; `cur_tid` is the variable of thread.c;
-- `closed` are the descriptors that resources have closed; `clock` is what `time(NULL)` returns.
pub record World : Type 0 where
  pub threads : Ptr → Option Thread
  pub ress : Ptr → Option Res
  pub cells : Ptr → Option Node
  pub nodes : Ptr → Option Dlist.Node
  pub io_root : Ptr
  pub sleep_root : Ptr
  pub stop : List Ptr
  pub cur_tid : ℕ
  pub closed : List ℕ
  pub clock : ℕ

-- How a command ends.
pub data Outcome (A : Type 0) : Type 0 where
  ended : A → World → Outcome A
  crash : Outcome A
  no_fuel : Outcome A

abbrev pub Act : Type 0 → Type 0
Act A = World → Outcome A

abbrev pub continue : {A B : Type 0} → Outcome A → (A → Act B) → Outcome B
continue (ended a w) k = k a w
continue crash k = crash
continue no_fuel k = no_fuel

infixl 5 ◌>>=◌ ◌>>◌
unfoldable pub ◌>>=◌ : {A B : Type 0} → Act A → (A → Act B) → Act B
◌>>=◌ m k w = continue (m w) k

abbrev pub ◌>>◌ : {A B : Type 0} → Act A → Act B → Act B
m >> n = m >>= λ _. n

unfoldable pub pure : {A : Type 0} → A → Act A
pure a w = ended a w

unfoldable pub give_up : {A : Type 0} → Act A
give_up w = no_fuel

unfoldable pub gets : {A : Type 0} → (World → A) → Act A
gets f w = ended (f w) w

unfoldable pub modify : (World → World) → Act (Unit {0})
modify f w = ended tt (f w)

-- A value that is there, or a crash.
unfoldable pub present : {A : Type 0} → Option A → Act A
present none w = crash
present (some a) w = ended a w

unfoldable pub update {ℓ} : {A : Type ℓ} → (Ptr → A) → Ptr → A → Ptr → A
update f p a q = if q == p then a else f q

-- `*th` and `*res`
unfoldable pub get_thread : Ptr → Act Thread
unfolding present ◌>>=◌ gets
get_thread p = if p == null then (λ _. crash) else (do t ← gets (λ w. w.threads p); present t)

unfoldable pub put_thread : Ptr → Option Thread → Act (Unit {0})
unfolding modify
put_thread p t = modify (λ w. record w { threads = update w.threads p t })

unfoldable pub get_res : Ptr → Act Res
unfolding present ◌>>=◌ gets
get_res p = if p == null then (λ _. crash) else (do r ← gets (λ w. w.ress p); present r)

unfoldable pub put_res : Ptr → Option Res → Act (Unit {0})
unfolding modify
put_res p r = modify (λ w. record w { ress = update w.ress p r })

abbrev pub root_of : PoolName → World → Ptr
root_of io_pool w = w.io_root
root_of sleep_pool w = w.sleep_root

abbrev pub with_tree : PoolName → Store → World → World
with_tree io_pool s w = record w { io_root = s.root; cells = s.cell }
with_tree sleep_pool s w = record w { sleep_root = s.root; cells = s.cell }

abbrev pub after_tree : {A : Type 0} → PoolName → World → Run A → Outcome A
after_tree q w (done a s) = ended a (with_tree q s w)
after_tree q w fault = crash
after_tree q w out_of_fuel = no_fuel

-- A command of the red-black tree, on one of the pools.
unfoldable pub on_pool : {A : Type 0} → PoolName → Cmd A → Act A
on_pool q m w = after_tree q w (m (record { root = root_of q w; cell = w.cells }))

abbrev pub after_list : Ptr → Thread → World → Option Dlist → Outcome (Unit {0})
after_list p t w none = crash
after_list p t w (some d) = ended tt (record w {
  nodes = d.cell;
  threads = update w.threads p (some (record t { head = d.head; tail = d.tail }));
})

-- An operation on the list `resl` of the thread `p`, which is `t`.
unfoldable pub on_list : Ptr → Thread → (Dlist → Option Dlist) → Act (Unit {0})
unfolding update
on_list p t f w = after_list p t w (f (record { head = t.head; tail = t.tail; cell = w.nodes }))
