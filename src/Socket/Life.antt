-- ===== src/Socket/Life.antt =====
-- c/src/lm_socket.c: how a socket comes and goes, and the functions for several sockets.
use artorias.Prelude.{
  ℕ, ◌+◌, Bool, true, false, ◌||◌, Option, none, some, List, [], ◌∷◌, ◌==◌, if◌then◌else◌,
}
use artorias.RbTree.Store.{Ptr, null}
use artorias.World.{
  Mode, simple, loop_socks, ev, Res, Act, ◌>>=◌, ◌>>◌, pure, gets, modify, get_thread, put_thread,
  get_res, put_res,
}
use artorias.Thread.{
  is_simple, asthread_res_init, asthread_res_add_to_th, asthread_res_del_from_th,
  asthread_res_ev_init, asthread_res_ev_add, asthread_remove_res_from_epfd,
}
use artorias.Worker.{Memp}

-- `LM_SOCK_TYPE_SYSTEM` and `LM_SOCK_TYPE_CUSTOM`
pub data SockType : Type 0 where
  system custom : SockType

-- `as_lm_socket_t`
pub record Sock : Type 0 where
  pub res : Ptr
  pub type : SockType

abbrev pub is_system : SockType → Bool
is_system system = true
is_system custom = false

-- `th` is the thread that the Lua thread's variables name.
pub lcf_socket_get_msock : Ptr → Act Sock
unfolding ◌>>=◌ get_thread pure
lcf_socket_get_msock th = do t ← get_thread th; pure (record { res = t.mfd_res; type = system })

pub close_fd : Res → Act (Unit {0})
unfolding modify pure
close_fd r = if r.freef then modify (λ w. record w { closed = r.fd ∷ w.closed }) else pure tt

-- `lcf_socket_close` of a socket that has a resource of its own.
pub close_res : Ptr → Act (Unit {0})
unfolding ◌>>=◌ get_res put_res pure close_fd asthread_res_del_from_th
close_res res = do
  r ← get_res res
  if r.th == null then pure tt else asthread_res_del_from_th res r.th
  close_fd r
  put_res res none

unfoldable pub lcf_socket_close : Sock → Act Sock
unfolding ◌>>=◌ pure close_res
lcf_socket_close sock =
    if sock.res == null || is_system sock.type
    then pure sock
    else (do close_res sock.res; pure (record sock { res = null }))

module _ (ctl : ℕ → ℕ → Bool) where
  -- A connected socket `fd` and its new resource. A result says if there is no error, and has the
  -- socket that is left for `__gc`.
  pub init_res : Ptr → Ptr → ℕ → Act (Bool × Sock)
  unfolding ◌>>=◌ get_res put_res pure asthread_res_init asthread_res_add_to_th asthread_res_ev_init
  init_res th res fd = do
    r ← get_res res
    put_res res (some (record r { fd = fd }))
    asthread_res_init res true
    asthread_res_add_to_th res th
    asthread_res_ev_init ctl res
    pure (true, record { res = res; type = custom })

  -- `client` is what `make_client_socket` returns, or nothing when that is negative.
  pub connect_res : Ptr → Option ℕ → Option (Ptr × Res) → Act (Bool × Sock)
  unfolding ◌>>=◌ put_res pure init_res
  connect_res th client none = pure (false, record { res = null; type = custom })
  connect_res th none (some (res, junk)) = do
    put_res res none
    pure (false, record { res = res; type = custom })
  connect_res th (some fd) (some (res, junk)) = do put_res res (some junk); init_res th res fd

  unfoldable pub lcf_socket_new : Memp → Ptr → Option ℕ → Act (Bool × Sock)
  unfolding ◌>>=◌ gets connect_res
  lcf_socket_new memp th client = do found ← gets memp.new_res; connect_res th client found

  -- `sock->res->status = AS_RSTATUS_EV;` and the registration.
  pub arm : Ptr → Res → ℕ → Act (Unit {0})
  unfolding ◌>>=◌ put_res asthread_res_ev_add
  arm res r events = do
    put_res res (some (record r { status = ev }))
    asthread_res_ev_add ctl res events

  -- The loop of `lcf_socket_ev_begin`; the table of the sockets is not modelled.
  pub ev_loop : Ptr → List (Sock × ℕ) → ℕ → Act ℕ
  unfolding ◌>>=◌ get_res pure arm
  ev_loop th [] m = pure m
  ev_loop th ((sock, events) ∷ rest) m = if sock.res == null then pure m else (do
    r ← get_res sock.res
    if r.th == th then (do arm sock.res r events; ev_loop th rest (m + 1)) else pure m)

  pub set_mode : Ptr → Mode → Act (Unit {0})
  unfolding ◌>>=◌ get_thread put_thread
  set_mode th mode = do t ← get_thread th; put_thread th (some (record t { mode = mode }))

  pub lcf_socket_ev_begin : Ptr → List (Sock × ℕ) → Act ℕ
  unfolding ◌>>=◌ pure ev_loop set_mode
  lcf_socket_ev_begin th socks = do m ← ev_loop th socks 0; set_mode th loop_socks; pure m

  pub lcf_socket_ev_end : ℕ → Ptr → Act (Unit {0})
  unfolding ◌>>=◌ get_thread pure set_mode asthread_remove_res_from_epfd
  lcf_socket_ev_end fuel th = if th == null then pure tt else (do
    t ← get_thread th
    if is_simple t.mode
        then pure tt
        else (do set_mode th simple; asthread_remove_res_from_epfd ctl fuel th))
