-- ===== src/Socket.antt =====
-- c/src/lm_socket.c: the functions that read and send. A function takes its arguments and gives what
-- it pushes; a continuation reads the stack of Lua that it finds, its bottom first. `ress` are the resources in memory, and `kernel` the system.
pub mod Stream
pub mod Life
pub mod Wait
mod Tests
use artorias.Prelude.{
  ℕ, zero, suc, ◌-◌, ◌+◌, Bool, true, false, Option, none, some, List, ◌==◌, if◌then◌else◌, length,
  drop, take, get_elem?,
}
use artorias.RbTree.Store.{Ptr, null}
use artorias.World.{Res, Mode, simple}
use artorias.Thread.{is_simple}
use artorias.Worker.{ℤ, pos, negsuc}
use artorias.Kernel.{
  Got, got, read_error, Put, put, send_error, Kernel, eagain, einval, ebadfd, etimedout,
}

-- What a read pushes: a count, the bytes or nil, and nil or `errno`.
pub record ReadResult : Type 0 where
  pub count : ℕ
  pub bytes : Option (List ℕ)
  pub errno : Option ℕ

-- `_send_ctx_t`; `len` is the length of `buf`.
pub record SendCtx : Type 0 where
  pub res : Ptr
  pub buf : List ℕ
  pub idx : ℕ

-- How a function comes back: with its results, by a Lua error, with a yield that waits for `res` (for
-- output if `out`) a number of seconds, by an access through a bad address, or not with this fuel.
pub data Reply (A C : Type 0) : Type 0 where
  returns : A → Reply A C
  raises : Reply A C
  yields_for_io : Ptr → Bool → ℤ → C → Reply A C
  bad_access : Reply A C
  no_fuel : Reply A C

-- What stands on the stack: a number; a text, and the number it can be read as; the userdata of a
-- socket and a light userdata, by their addresses; or something else.
pub data StackValue : Type 0 where
  number : ℤ → StackValue
  text : Option ℤ → StackValue
  socket light : Ptr → StackValue
  other : StackValue

-- What a continuation is called with: `LUA_OK`; `LUA_YIELD`, with the stack; or another status.
pub data Status : Type 0 where
  lua_ok : Status
  yielded : List StackValue → Status
  other_status : Status

-- `luaL_checkinteger`; `none` is an error.
abbrev pub check_integer : Option StackValue → Option ℤ
check_integer (some (number n)) = some n
check_integer (some (text n)) = n
check_integer _ = none

-- `lua_touserdata`
abbrev to_userdata : Option StackValue → Ptr
to_userdata (some (socket p)) = p
to_userdata (some (light p)) = p
to_userdata _ = null

-- `lua_touserdata(L, -2)`
abbrev pub userdata_at_2 : List StackValue → Ptr
userdata_at_2 s = to_userdata (get_elem? s (length s - 2))

-- `LAS_S_RESUME_IO_TIMEOUT`
abbrev pub resume_io_timeout : ℕ
resume_io_timeout = 10

abbrev pub is_timeout : ℤ → Bool
is_timeout (pos n) = n == resume_io_timeout
is_timeout (negsuc n) = false

abbrev or_1024 : ℤ → ℕ
or_1024 (pos zero) = 1024
or_1024 (pos (suc n)) = suc n
or_1024 (negsuc n) = 1024

-- The default is `LAS_D_TIMOUT_SECS`.
abbrev or_15 : ℤ → ℤ
or_15 (pos n) = pos n
or_15 (negsuc n) = pos 15

abbrev read_result : {K : Type 0} → Got × K → Reply ReadResult (Unit {0}) × K
read_result (got xs, k) = (returns (record { count = length xs; bytes = some xs; errno = none }), k)
read_result (read_error e, k) = (returns (record { count = 0; bytes = none; errno = some e }), k)

abbrev send_result : {K : Type 0} → Put × K → Reply (ℕ × Option ℕ) SendCtx × K
send_result (put n, k) = (returns (n, none), k)
send_result (send_error e, k) = (returns (0, some e), k)

abbrev closed_read : Reply ReadResult (Unit {0})
closed_read = returns (record { count = 0; bytes = none; errno = some ebadfd })

-- What `k_socket_send` does with a reply of `send`; `again` is the next round of its loop.
abbrev pub after_send :
    {K : Type 0}
    → (SendCtx → K → Reply (ℕ × Option ℕ) SendCtx × K)
    → Ptr
    → SendCtx
    → Put × K
    → Reply (ℕ × Option ℕ) SendCtx × K
after_send again res ctx (put n, k) =
    if n == length ctx.buf - ctx.idx
    then (returns (length ctx.buf, none), k)
    else again (record ctx { idx = ctx.idx + n }) k
after_send again res ctx (send_error e, k) =
    if e == eagain then (yields_for_io res true (pos 15) ctx, k) else (returns (ctx.idx, some e), k)

module _ {K : Type 0} (kernel : Kernel K) (ress : Ptr → Option Res) where
  -- `read(fd, buf, n)` on `res->fdf(res)`, and the results.
  abbrev pub read_from : Option Res → ℤ → K → Reply ReadResult (Unit {0}) × K
  read_from none n k = (bad_access, k)
  read_from (some r) n k = read_result (kernel.read k r.fd (or_1024 n))

  lcf_socket_sread : Ptr → ℤ → K → Reply ReadResult (Unit {0}) × K
  lcf_socket_sread res n k = if res == null then (closed_read, k) else read_from (ress res) n k

  -- With the number of bytes to read.
  abbrev read_checked : Ptr → Option ℤ → K → Reply ReadResult (Unit {0}) × K
  read_checked res none k = (raises, k)
  read_checked res (some n) k = read_from (ress res) n k

  abbrev read_woken : List StackValue → Option ℤ → K → Reply ReadResult (Unit {0}) × K
  read_woken s none k = (raises, k)
  read_woken s (some type) k =
      if is_timeout type
      then (returns (record { count = 0; bytes = none; errno = some etimedout }), k)
      else read_checked (userdata_at_2 s) (check_integer (get_elem? (take (length s - 3) s) 1)) k

  k_socket_read : Status → K → Reply ReadResult (Unit {0}) × K
  k_socket_read lua_ok k = (raises, k)
  k_socket_read (yielded s) k = read_woken s (check_integer (get_elem? s 3)) k
  k_socket_read other_status k = (raises, k)

  -- `res->th->mode` as `mode` gives it.
  lcf_socket_read : (Ptr → Option Mode) → Ptr → ℤ → Reply ReadResult (Unit {0})
  lcf_socket_read mode res timeout = if res == null then closed_read else elim (mode res) [
    | none ↦ bad_access
    | some m ↦ if is_simple m then yields_for_io res false (or_15 timeout) tt else raises
  ]

  abbrev send_to : Option Res → List ℕ → K → Reply (ℕ × Option ℕ) SendCtx × K
  send_to none buf k = (bad_access, k)
  send_to (some r) buf k = send_result (kernel.send k r.fd buf)

  -- `buf` is what `lua_tolstring` returns.
  lcf_socket_ssend : Ptr → Option (List ℕ) → K → Reply (ℕ × Option ℕ) SendCtx × K
  lcf_socket_ssend res buf k =
      if res == null
      then (returns (0, some ebadfd), k)
      else elim buf [ none ↦ (returns (0, some einval), k) | some xs ↦ send_to (ress res) xs k ]

  -- The loop of `k_socket_send` on the descriptor `fd`.
  pub send_loop : ℕ → ℕ → Ptr → SendCtx → K → Reply (ℕ × Option ℕ) SendCtx × K
  send_loop zero fd res ctx k = (no_fuel, k)
  send_loop (suc fuel) fd res ctx k =
      after_send (send_loop fuel fd res) res ctx (kernel.send k fd (drop ctx.idx ctx.buf))

  abbrev pub send_on : ℕ → Ptr → Option Res → SendCtx → K → Reply (ℕ × Option ℕ) SendCtx × K
  send_on fuel res none ctx k = (bad_access, k)
  send_on fuel res (some r) ctx k = send_loop fuel r.fd res ctx k

  -- With the type of the message.
  abbrev pub send_woken :
      ℕ → List StackValue → Option ℤ → SendCtx → K → Reply (ℕ × Option ℕ) SendCtx × K
  send_woken fuel s none ctx k = (raises, k)
  send_woken fuel s (some type) ctx k =
      if is_timeout type
      then (returns (ctx.idx, some etimedout), k)
      else send_on fuel (userdata_at_2 s) (ress (userdata_at_2 s)) ctx k

  -- The type is read from the index 1.
  pub k_socket_send : ℕ → Status → SendCtx → K → Reply (ℕ × Option ℕ) SendCtx × K
  unfolding send_loop
  k_socket_send fuel lua_ok ctx k = send_on fuel ctx.res (ress ctx.res) ctx k
  k_socket_send fuel (yielded s) ctx k = send_woken fuel s (check_integer (get_elem? s 0)) ctx k
  k_socket_send fuel other_status ctx k = (raises, k)

  lcf_socket_send :
      (Ptr → Option Mode) → ℕ → Ptr → Option (List ℕ) → K → Reply (ℕ × Option ℕ) SendCtx × K
  unfolding k_socket_send
  lcf_socket_send mode fuel res buf k =
      if res == null then (returns (0, some ebadfd), k) else elim (mode res) [
        | none ↦ (bad_access, k)
        | some m ↦
            if is_simple m
            then elim buf [
              | none ↦ (returns (0, some einval), k)
              | some xs ↦ k_socket_send fuel lua_ok (record { res = res; buf = xs; idx = 0 }) k
            ]
            else (raises, k)
      ]
