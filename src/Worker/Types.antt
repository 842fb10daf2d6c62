-- ===== src/Worker/Types.antt =====
-- c/src/mw_worker.h, c/src/mw_worker.c and c/src/lua_utils.h: what the loop of a worker works with.
use artorias.Prelude.{ℕ, ◌+◌, ◌-◌, Bool, Option}
use artorias.RbTree.Store.{Ptr}
use artorias.World.{Res, Thread, World}

-- An `int`; `negsuc n` is -(n + 1).
pub data ℤ : Type 0 where
  pos : ℕ → ℤ
  negsuc : ℕ → ℤ

abbrev pub add_secs : ℕ → ℤ → ℕ
add_secs t (pos n) = t + n
add_secs t (negsuc n) = t - (n + 1)

abbrev pub or_default : ℕ → ℤ → ℤ
or_default d (pos n) = pos n
or_default d (negsuc n) = pos d

-- What a coroutine is resumed with: nothing, `LAS_S_RESUME_IO` with the resource and whether it is
-- ready for input, `LAS_S_RESUME_IO_ERROR`, `LAS_S_RESUME_IO_TIMEOUT` or `LAS_S_RESUME_SLEEP`.
pub data Message : Type 0 where
  begin : Message
  resume_io : Ptr → Bool → Message
  resume_io_error : Ptr → Message
  resume_io_timeout : Message
  resume_sleep : Message

-- How it comes back: a yield for input (or output) on a resource, for sleep or for an event; any
-- other yield, a return or an error ends the thread.
pub data Yield : Type 0 where
  for_io : Ptr → Bool → ℤ → Yield
  for_sleep : ℤ → Yield
  for_ev : ℤ → Yield
  ends : Yield

-- What `memp_alloc` returns for a thread and for a resource: an address, and what the memory holds; or
-- NULL, which the code does not test before it writes there: a crash, here at once.
pub record Memp : Type 0 where
  pub new_thread : World → Option (Ptr × Thread)
  pub new_res : World → Option (Ptr × Res)

-- `struct epoll_event`
pub record Event : Type 0 where
  pub res : Ptr
  pub err : Bool
  pub hup : Bool
  pub into : Bool
  pub out : Bool

-- The fields of the context that the loop does not change. `in_events` and `out_events` are
-- `EPOLLIN | EPOLLET` and `EPOLLOUT | EPOLLET`.
pub record Ctx : Type 0 where
  pub cfd_res : Ptr
  pub conn_timeout : ℕ
  pub in_events : ℕ
  pub out_events : ℕ

abbrev pub Lua : Type 0
Lua = Ptr → Message → World → Yield × World
