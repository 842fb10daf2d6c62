-- ===== src/Socket/Wait.antt =====
-- c/src/lm_socket.c: waiting for events, and the resource of a socket. `socks` is the table
-- `LLK_RES_SOCK_TABLE`, from resources to the sockets of Lua.
use artorias.Prelude.{ℕ, Option, none, some, ◌==◌, if◌then◌else◌}
use artorias.RbTree.Store.{Ptr}
use artorias.Worker.{ℤ}
use artorias.Socket.Life.{Sock}

-- `LAS_S_RESUME_IO`, `LAS_S_RESUME_IO_ERROR` and `LAS_S_RESUME_SLEEP`
abbrev pub resume_io : ℕ
resume_io = 8

abbrev pub resume_io_error : ℕ
resume_io_error = 9

abbrev pub resume_sleep : ℕ
resume_sleep = 11

-- What the continuation is called with: `LUA_YIELD` with the type of the message, if it is an integer,
-- and the two values behind it; or another status.
pub data Resumed : Type 0 where
  yielded : Option ℕ → Ptr → ℕ → Resumed
  other_status : Resumed

-- How the functions come back: with a yield for events and its timeout; with the type of the message,
-- a socket or nil, and what it is ready for or nil; with three values that stand on the stack; or by a
-- Lua error.
pub data Waited : Type 0 where
  yields_for_ev : ℤ → Waited
  returns : ℕ → Option Sock → Option ℕ → Waited
  returns_stack : Waited
  raises : Waited

abbrev lcf_socket_get_res : Sock → Ptr
lcf_socket_get_res sock = sock.res

lcf_socket_ev_wait : ℤ → Waited
lcf_socket_ev_wait timeout = yields_for_ev timeout

k_socket_ev_wait : (Ptr → Option Sock) → Resumed → Waited
k_socket_ev_wait socks (yielded none res ready) = raises
k_socket_ev_wait socks (yielded (some type) res ready) =
    if type == resume_io
    then returns type (socks res) (some ready)
    else if type == resume_io_error
    then returns type (socks res) none
    else if type == resume_sleep
    then returns type none none
    else returns_stack
k_socket_ev_wait socks other_status = raises
