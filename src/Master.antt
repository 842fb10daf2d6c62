-- ===== src/Master.antt =====
-- c/src/mw_server.c: the master, which accepts connections and deals them out to its workers.
pub mod Deal
pub mod Drain
pub mod Rounds
pub mod Start
mod Tests
use artorias.Prelude.{
  ℕ, zero, suc, ◌+◌, ◌%◌, Bool, not, ◌||◌, Option, none, some, List, [], ◌∷◌, ◌==◌, if◌then◌else◌,
  get_elem?,
}
use artorias.Net.{Accepted, accepted, accept_error, epollin, epollet, Event, Net}
use artorias.Server.Sockets.{new_accept_fd, send_fd_by_socket, set_non_block}

-- How a loop of the master ends: with `j`, the worker whose turn it is; or with a read outside of
-- `child_sockets` or a division by zero.
pub data Turn (K : Type 0) : Type 0 where
  turn : ℕ → K → Turn K
  fault : Turn K
  no_fuel : Turn K

abbrev pub and_then : {K : Type 0} → Turn K → (ℕ → K → Turn K) → Turn K
and_then (turn j k) next = next j k
and_then fault next = fault
and_then no_fuel next = no_fuel

module _ {K : Type 0} (net : Net K) (socket : ℕ) (child_sockets : List ℕ) (n : ℕ) where
  abbrev hand_over : (ℕ → K → Turn K) → ℕ → ℕ → K → Option ℕ → Turn K
  hand_over again j infd k none = fault
  hand_over again j infd k (some child) =
      let (r, k1) = send_fd_by_socket net child infd k in
      if n == 0 then fault else again ((j + 1) % n) (net.close k1 infd)

  abbrev pub after_accept : (ℕ → K → Turn K) → ℕ → Accepted × K → Turn K
  after_accept again j (accepted infd, k) = hand_over again j infd k (get_elem? child_sockets j)
  after_accept again j (accept_error e, k) = turn j k

  -- The inner `while (1)`.
  pub accept_loop : ℕ → ℕ → K → Turn K
  unfolding new_accept_fd
  accept_loop zero j k = no_fuel
  accept_loop (suc fuel) j k = after_accept (accept_loop fuel) j (new_accept_fd net socket k)

  pub handle_event : ℕ → Event → ℕ → K → Turn K
  unfolding accept_loop
  handle_event fuel e j k =
      if e.err || e.hup || not e.into
      then turn j (net.close k e.fd)
      else if e.fd == socket
      then accept_loop fuel j k
      else turn j k

  pub handle_events : ℕ → List Event → ℕ → K → Turn K
  unfolding handle_event
  handle_events fuel [] j k = turn j k
  handle_events fuel (e ∷ es) j k = and_then (handle_event fuel e j k) (handle_events fuel es)

  -- As many rounds of the outer `while (1)`, which has no end.
  pub rounds : Option ℕ → ℕ → ℕ → ℕ → K → Turn K
  unfolding handle_events
  rounds epfd fuel zero j k = turn j k
  rounds epfd fuel (suc m) j k =
      let (events, k1) = net.epoll_wait k epfd in
      and_then (handle_events fuel events j k1) (rounds epfd fuel m)

  -- `master_process`, with as many rounds of its loop.
  pub master_process : ℕ → ℕ → K → Turn K
  unfolding set_non_block rounds
  master_process fuel m k =
      let (epfd, k1) = net.epoll_create k in
      let (r, k2) = set_non_block net socket k1 in
      rounds epfd fuel m 0 (net.epoll_add k2 epfd socket (epollin + epollet))
