-- ===== src/Master/Drain.antt =====
-- c/src/mw_server.c: an event on the listening socket: how the loop that accepts connections ends.
use artorias.Prelude.{
  ℕ, zero, suc, ◌%◌, ◌<◌, ◌≡◌, refl, subst, inl, inr, true, false, not, ◌||◌, Option, none, some,
  List, arith, ◌==◌, Bool-cases, length, get_elem?,
}
use artorias.Kernel.{eagain}
use artorias.Net.{Accepted, accepted, accept_error, Event, Net, IsLedger, IsLogged, Passed}
use artorias.Server.Sockets.{new_accept_fd, send_fd_by_socket}
use artorias.Master.{Turn, turn, fault, no_fuel, hand_over, after_accept, accept_loop, handle_event}
use artorias.Master.Deal.{IsDealt, accept_loop-IsDealt}

-- The loop has ended with an `accept` that failed, and has dealt out the connections accepted before:
-- all that waited, if the error is `EAGAIN`.
pub record IsDrained {K : Type 0} (net : Net K) (socket : ℕ) (held : K → List ℕ)
    (log : K → List Passed) (waiting : K → ℕ) (child_sockets : List ℕ) (n c : ℕ) (k : K)
    (r : Turn K) : Type 0 where
  pub deal : IsDealt held log waiting child_sockets n c k r
  pub e : ℕ
  pub before : K
  pub fails : net.accept before socket ≡ (accept_error e, deal.state)
  pub all : e ≡ eagain → (length deal.fds ≡ waiting k) × (waiting deal.state ≡ 0)

abbrev EndsAtError : {K : Type 0} → Net K → ℕ → Turn K → Type 0
EndsAtError {K} net socket (turn j k) =
    (e : ℕ) × ((k1 : K) × (net.accept k1 socket ≡ (accept_error e, k)))
EndsAtError net socket fault = Unit
EndsAtError net socket no_fuel = Unit

module _ {K : Type 0} (net : Net K) (held : K → List ℕ) (log : K → List Passed) (waiting : K → ℕ)
    (ledger : IsLedger net held) (logged : IsLogged net log waiting) (socket : ℕ)
    (child_sockets : List ℕ) (n : ℕ) (some_worker : 0 < n) (all_workers : length child_sockets ≡ n)
    (empty : (k k' : K) → net.accept k socket ≡ (accept_error eagain, k') → waiting k' ≡ 0) where
  hand_over-EndsAtError :
      (again : ℕ → K → Turn K) (j infd : ℕ) (k : K) (child : Option ℕ)
      → ((j' : ℕ) (k' : K) → EndsAtError net socket (again j' k'))
      → EndsAtError net socket (hand_over net socket child_sockets n again j infd k child)
  unfolding send_fd_by_socket
  hand_over-EndsAtError again j infd k none f = tt
  hand_over-EndsAtError again j infd k (some child) f = elim (Bool-cases (n == 0)) [
    | inl zero_workers ↦ rw zero_workers tt
    | inr workers ↦ rw workers (f _ _)
  ]

  after_accept-EndsAtError :
      (again : ℕ → K → Turn K) (j : ℕ) (k : K) (r : Accepted × K)
      → net.accept k socket ≡ r
      → ((j' : ℕ) (k' : K) → EndsAtError net socket (again j' k'))
      → EndsAtError net socket (after_accept net socket child_sockets n again j r)
  after_accept-EndsAtError again j k (accept_error e, k') a f = (e, (k, a))
  after_accept-EndsAtError again j k (accepted infd, k') a f =
      hand_over-EndsAtError again j infd k' (get_elem? child_sockets j) f

  accept_loop-EndsAtError :
      (fuel j : ℕ) (k : K)
      → EndsAtError net socket (accept_loop net socket child_sockets n fuel j k)
  unfolding accept_loop new_accept_fd
  accept_loop-EndsAtError zero j k = tt
  accept_loop-EndsAtError (suc fuel) j k =
      after_accept-EndsAtError (accept_loop net socket child_sockets n fuel) j k _ refl
        (accept_loop-EndsAtError fuel)

  -- Let there be one worker at least and a socket for each, let the calls open, close and log
  -- descriptors as documented, let `accept` fail with `EAGAIN` only when no connection waits, and
  -- let fewer connections wait than there is fuel. From the turn of the worker `c % n`, the
  -- handling of an input event on the listening socket ends, at an `accept` that has failed,
  -- without a read outside of `child_sockets`: every connection accepted has been passed to
  -- `sendmsg` on the socket of the next worker in turn, the descriptors that the master holds are
  -- those of before, and if the error was `EAGAIN`, all connections that waited have been accepted
  -- and none waits.
  pub handle_event-IsDrained :
      (fuel : ℕ) (e : Event) (c : ℕ) (k : K)
      → (e.err || e.hup || not e.into) ≡ false
      → e.fd ≡ socket
      → waiting k < fuel
      → IsDrained net socket held log waiting child_sockets n c k
          (handle_event net socket child_sockets n fuel e (c % n) k)
  unfolding handle_event
  handle_event-IsDrained fuel e c k good here enough =
      let d =
        accept_loop-IsDealt net held log waiting ledger logged socket child_sockets n some_worker
          all_workers fuel c k enough in
      let (err, (k1, stopped)) =
        subst (EndsAtError net socket) d.returns (accept_loop-EndsAtError fuel (c % n) k) in
      let same : (e.fd == socket) ≡ true = ground arith in
      let w = d.waiting_after in
      rw (good, same)
        (record {
          deal = d;
          e = err;
          before = k1;
          fails = stopped;
          all = λ again.
              let none_left : waiting d.state ≡ 0 = empty k1 d.state (rw again at stopped) in
              (omega arith, none_left);
        })
