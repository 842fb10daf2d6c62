-- ===== src/EpollServer.antt =====
-- c/src/epoll_server.c: the server that waits with epoll.
pub mod Variable
mod Tests
use artorias.Prelude.{
  ℕ, zero, suc, ◌+◌, Bool, true, false, not, ◌||◌, ◌&&◌, Option, none, some, List, [], ◌∷◌, ◌==◌,
  if◌then◌else◌,
}
use artorias.Worker.{ℤ, pos, negsuc}
use artorias.Kernel.{Got, got, read_error, Kernel, eagain}
use artorias.Net.{Accepted, accepted, accept_error, epollin, epollet, Event, Net}
use artorias.Server.{simple_write_to_client}
use artorias.Server.Sockets.{new_accept_fd, set_non_block, set_socket_send_buffer_size}

-- The variable `infd`, which is not written at first; -1 after the last `accept`.
pub data Infd : Type 0 where
  unwritten minus_one : Infd
  holds : ℕ → Infd

-- How a part of the loop ends: with the variable; or it has been read before it is written. `no_fuel`
-- is also an `int` that cannot count the bytes sent.
pub data Served (K : Type 0) : Type 0 where
  served : Infd → K → Served K
  read_unwritten : Served K
  no_fuel : Served K

abbrev pub and_then : {K : Type 0} → Served K → (Infd → K → Served K) → Served K
and_then (served infd k) next = next infd k
and_then read_unwritten next = read_unwritten
and_then no_fuel next = no_fuel

-- "+OK\r\n", and a `+`, seven `a`, "\r\n"
abbrev pub answer : List ℕ
answer = 43 ∷ 79 ∷ 75 ∷ 13 ∷ 10 ∷ []

abbrev pub msg : List ℕ
msg = 43 ∷ 97 ∷ 97 ∷ 97 ∷ 97 ∷ 97 ∷ 97 ∷ 97 ∷ 13 ∷ 10 ∷ []

module _ {K : Type 0} (net : Net K) (kernel : Kernel K) (epfd : Option ℕ) (fd fuel : ℕ) where
  -- `event.events = EPOLLIN | EPOLLET; epoll_ctl(epfd, EPOLL_CTL_ADD, …);`
  abbrev watch : ℕ → K → K
  watch infd k = net.epoll_add k epfd infd (epollin + epollet)

  abbrev pub after_accept : (K → Served K) → Accepted × K → Served K
  after_accept again (accept_error e, k) = served minus_one k
  after_accept again (accepted infd, k) =
      let (r, k1) = set_non_block net infd k in
      let (size, k2) = set_socket_send_buffer_size net infd 2048 k1 in again (watch infd k2)

  -- The `while (1)` over the connections that wait.
  pub accept_loop : ℕ → K → Served K
  unfolding set_non_block new_accept_fd set_socket_send_buffer_size
  accept_loop zero k = no_fuel
  accept_loop (suc left) k = after_accept (accept_loop left) (new_accept_fd net fd k)

  abbrev pub after_read : (K → Served K) → ℕ → Got × K → Served K
  after_read again infd (read_error e, k) =
      if e == eagain
      then (let (n, k1) = kernel.send k infd answer in served (holds infd) (watch infd k1))
      else served (holds infd) (net.close k infd)
  after_read again infd (got [], k) = served (holds infd) (net.close k infd)
  after_read again infd (got (x ∷ xs), k) = again (watch infd k)

  -- The `while (1)` over the bytes of a client.
  pub read_loop : ℕ → ℕ → K → Served K
  read_loop zero infd k = no_fuel
  read_loop (suc left) infd k = after_read (read_loop left infd) infd (kernel.read k infd 1)

  -- `epoll_ctl(epfd, EPOLL_CTL_DEL, infd, NULL)` stands before `infd` gets the event's descriptor.
  abbrev serve_input : ℕ → Infd → K → Served K
  serve_input client unwritten k = read_unwritten
  serve_input client minus_one k = read_loop fuel client (net.epoll_del k epfd none)
  serve_input client (holds old) k = read_loop fuel client (net.epoll_del k epfd (some old))

  abbrev pub after_write : ℕ → Option (ℤ × K) → Served K
  after_write infd none = no_fuel
  after_write infd (some (negsuc m, k)) = served (holds infd) (net.close k infd)
  after_write infd (some (pos zero, k)) = served (holds infd) (net.close k infd)
  after_write infd (some (pos (suc n), k)) =
      served (holds infd) (net.epoll_mod k epfd infd (epollin + epollet))

  pub handle_event : Event → Infd → K → Served K
  unfolding accept_loop read_loop
  handle_event e infd k =
      if e.err || e.hup || not (e.into || e.out)
      then served infd (net.close k e.fd)
      else if e.fd == fd
      then accept_loop fuel k
      else if e.into
      then serve_input e.fd infd k
      else after_write e.fd (simple_write_to_client kernel e.fd fuel msg k)

  pub handle_events : List Event → Infd → K → Served K
  unfolding handle_event
  handle_events [] infd k = served infd k
  handle_events (e ∷ es) infd k = and_then (handle_event e infd k) (handle_events es)

  -- As many rounds of the loop as the process keeps running.
  pub rounds : ℕ → Infd → K → Served K
  unfolding handle_events
  rounds zero infd k = served infd k
  rounds (suc m) infd k =
      let (events, k1) = net.epoll_wait k epfd in and_then (handle_events events infd k1) (rounds m)

pub epoll_server : {K : Type 0} → Net K → Kernel K → ℕ → ℕ → ℕ → K → Served K
unfolding set_non_block rounds
epoll_server net kernel fd fuel m k =
    let (epfd, k1) = net.epoll_create k in
    let (r, k2) = set_non_block net fd k1 in
    rounds net kernel epfd fd fuel m unwritten (net.epoll_add k2 epfd fd (epollin + epollet))
