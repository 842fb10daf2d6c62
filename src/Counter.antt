-- ===== src/Counter.antt =====
-- c/src/lm_counter.c: a counter of the memory pool behind a Lua userdata. The pool is a parameter: what
-- `memp_alloc` returns. A counter counts with 32 bits, in two's complement.
mod Laws
mod Tests
use artorias.Prelude.{ℕ, ◌+◌, ◌%◌, ◌^◌, Option, none, some, List, [], ◌∷◌, ◌==◌, if◌then◌else◌}
use artorias.RbTree.Store.{Ptr, null}
use artorias.World.{update}

-- The counters at their addresses; `recycled` are the addresses given back, the last one first, and
-- `names` the names given back.
pub record Heap : Type 0 where
  pub val : Ptr → Option ℕ
  pub recycled : List Ptr
  pub names : List ℕ

-- `as_lm_counter_ud_t`: the counter and the name, which `strdup` returns at an address.
pub record CounterUd : Type 0 where
  pub c : Ptr
  pub name : Ptr

module _ (alloc : Heap → Ptr) where
  -- `mp` says if there is a pool.
  pub counter_create : ℕ → Ptr → Heap → Ptr × Heap
  unfolding update
  counter_create start mp h =
      let c = alloc h in
      if mp == null
      then (null, h)
      else if c == null
      then (null, h)
      else (c, record h { val = update h.val c (some (start % 2 ^ 32)) })

  pub lcf_counter_new : ℕ → Ptr → Ptr → Heap → CounterUd × Heap
  unfolding counter_create
  lcf_counter_new start mp name h =
      let (c, h') = counter_create start mp h in (record { c = c; name = name }, h')

counter_destroy : Ptr → Heap → Heap
unfolding update
counter_destroy c h =
    if c == null then h else record h { val = update h.val c none; recycled = c ∷ h.recycled }

abbrev added : Ptr → ℕ → Heap → Option ℕ → Option Heap
added c amount h none = none
added c amount h (some v) = some (record h { val = update h.val c (some ((v + amount) % 2 ^ 32)) })

-- `none` is an access at an address that holds no counter.
pub counter_add : Ptr → ℕ → Heap → Option Heap
unfolding update
counter_add c amount h = if c == null then some h else added c amount h (h.val c)

pub counter_getval : Ptr → Heap → Option ℕ
counter_getval c h = if c == null then some 0 else h.val c

pub lcf_counter_add : CounterUd → ℕ → Heap → Option Heap
unfolding counter_add
lcf_counter_add cu amount h = counter_add cu.c amount h

pub lcf_counter_getval : CounterUd → Heap → Option ℕ
unfolding counter_getval
lcf_counter_getval cu h = counter_getval cu.c h

abbrev lcf_counter_getname : CounterUd → Ptr
lcf_counter_getname cu = cu.name

lcf_counter_destroy : CounterUd → Heap → CounterUd × Heap
unfolding counter_destroy
lcf_counter_destroy cu h =
    let h' = counter_destroy cu.c h in
    (
      record { c = null; name = null },
      if cu.name == null then h' else record h' { names = cu.name ∷ h'.names },
    )
