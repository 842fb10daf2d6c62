-- ===== src/Dlist.antt =====
-- c/src/dlist.h and c/src/dlist.c: the doubly linked list, over a store of nodes. `none` is an access
-- through NULL or through an address that holds no node.
pub mod Segment
pub mod Laws
pub mod Remove
mod Tests
use artorias.Prelude.{
  ℕ, zero, suc, ◌==◌, Bool, Option, none, some, List, [], ◌∷◌, if◌then◌else◌, ◌>>=◌,
}

abbrev pub Ptr : Type 0
Ptr = ℕ

abbrev pub null : Ptr
null = 0

-- `as_dlist_node_t`
pub record Node : Type 0 where
  pub next : Ptr
  pub prev : Ptr

abbrev pub links : Ptr → Ptr → Node
links prev next = record { next = next; prev = prev }

-- `as_dlist_t`, beside the nodes of the memory.
pub record Dlist : Type 0 where
  pub head : Ptr
  pub tail : Ptr
  pub cell : Ptr → Option Node

unfoldable pub put : Ptr → Node → (Ptr → Option Node) → Ptr → Option Node
put p n c q = if q == p then some n else c q

-- `*p`
unfoldable pub load : Dlist → Ptr → Option Node
load d p = if p == null then none else d.cell p

-- `p->next = q` and `p->prev = q`
pub set_next : Dlist → Ptr → Ptr → Option Dlist
unfolding load
set_next d p q = load d p >>= λ n. some (record d { cell = put p (links n.prev q) d.cell })

pub set_prev : Dlist → Ptr → Ptr → Option Dlist
unfolding load
set_prev d p q = load d p >>= λ n. some (record d { cell = put p (links q n.next) d.cell })

-- `dlist_init`
dlist_init : Dlist → Dlist
dlist_init d = record d { head = null; tail = null }

unfoldable pub dlist_add_to_head : Dlist → Ptr → Option Dlist
unfolding set_next set_prev
dlist_add_to_head d node = do
  d ← set_prev d node null
  d ← set_next d node d.head
  d ← (if d.head == null then some (record d { tail = node }) else set_prev d d.head node)
  some (record d { head = node })

pub dlist_add_to_tail : Dlist → Ptr → Option Dlist
unfolding set_next set_prev
dlist_add_to_tail d node = do
  d ← set_next d node null
  d ← set_prev d node d.tail
  d ← (if d.head == null then some (record d { head = node }) else set_next d d.tail node)
  some (record d { tail = node })

unfoldable pub dlist_del : Dlist → Ptr → Option Dlist
unfolding load set_next set_prev
dlist_del d node = do
  d ← (if d.head == node then (load d node >>= λ n. some (record d { head = n.next })) else some d)
  d ← (if d.tail == node then (load d node >>= λ n. some (record d { tail = n.prev })) else some d)
  n ← load d node
  d ← (if n.prev == null then some d else set_next d n.prev n.next)
  if n.next == null then some d else set_prev d n.next n.prev
