-- ===== src/Master/Rounds.antt =====
-- c/src/mw_server.c: the turns of the workers, over all rounds of the master's loop.
use artorias.Prelude.{
  ℕ, zero, suc, ◌+◌, ◌%◌, ◌<◌, ◌≡◌, refl, sym, ap, subst, bit_or, ◌∙◌, inl, inr, not, ◌||◌, Option,
  none, some, List, [], ◌∷◌, ◌++◌, arith, ◌==◌, Bool-cases, length, append_assoc, append_nil,
  length-append,
}
use native.Mathlib.Nat.{zero-mod}
use artorias.Net.{epollin, epollet, Event, Net, IsLedger, IsLogged, Passed}
use artorias.Server.Sockets.{set_nonblock_flag, set_non_block, o_nonblock}
use artorias.Master.{Turn, turn, and_then, handle_event, handle_events, rounds, master_process}
use artorias.Master.Deal.{dealt, accept_loop-IsDealt}

-- What a part of the loop leaves: it has dealt out connections in turns, and gives the turn to the
-- worker behind the last one.
pub record IsTurn {K : Type 0} (log : K → List Passed) (child_sockets : List ℕ) (n c : ℕ) (k : K)
    (r : Turn K) : Type 0 where
  pub state : K
  pub fds : List ℕ
  pub returns : r ≡ turn ((c + length fds) % n) state
  pub log_after : log state ≡ log k ++ dealt child_sockets n c fds

dealt-append :
    (child_sockets : List ℕ) (n c : ℕ) (xs ys : List ℕ)
    → dealt child_sockets n c (xs ++ ys)
      ≡ dealt child_sockets n c xs ++ dealt child_sockets n (c + length xs) ys
dealt-append child_sockets n c [] ys = let e : c + 0 ≡ c = omega arith in rw e refl
dealt-append child_sockets n c (x ∷ xs) ys =
    let e : c + suc (length xs) ≡ suc c + length xs = omega arith in
    rw (dealt-append child_sockets n (suc c) xs ys, e) refl

module _ {K : Type 0} (log : K → List Passed) (child_sockets : List ℕ) (n : ℕ) where
  -- Nothing is dealt out.
  none-IsTurn :
      (c : ℕ) (k k' : K) → log k' ≡ log k → IsTurn log child_sockets n c k (turn (c % n) k')
  none-IsTurn c k k' same = record {
    state = k';
    fds = [];
    returns = let e : c + 0 ≡ c = omega arith in rw e refl;
    log_after = same ∙ sym (append_nil (log k));
  }

  and_then-IsTurn :
      (c : ℕ) (k : K) (r : Turn K) (next : ℕ → K → Turn K)
      → IsTurn log child_sockets n c k r
      → ((c' : ℕ) (k' : K) → IsTurn log child_sockets n c' k' (next (c' % n) k'))
      → IsTurn log child_sockets n c k (and_then r next)
  and_then-IsTurn c k r next t f =
      let u = f (c + length t.fds) t.state in
      let e : c + length (t.fds ++ u.fds) ≡ c + length t.fds + length u.fds =
        omega (arith, length-append t.fds u.fds) in
      record {
        state = u.state;
        fds = t.fds ++ u.fds;
        returns = rw (t.returns, e) u.returns;
        log_after =
            u.log_after
            ∙ ap (λ xs. xs ++ dealt child_sockets n (c + length t.fds) u.fds) t.log_after
            ∙ append_assoc (log k) (dealt child_sockets n c t.fds) _
            ∙ ap (λ xs. log k ++ xs) (sym (dealt-append child_sockets n c t.fds u.fds));
      }

  from-IsTurn :
      (c : ℕ) (k k' : K) (r : Turn K)
      → log k' ≡ log k
      → IsTurn log child_sockets n c k' r
      → IsTurn log child_sockets n c k r
  from-IsTurn c k k' r same t = record {
    state = t.state;
    fds = t.fds;
    returns = t.returns;
    log_after = t.log_after ∙ ap (λ xs. xs ++ dealt child_sockets n c t.fds) same;
  }

module _ {K : Type 0} (net : Net K) (held : K → List ℕ) (log : K → List Passed) (waiting : K → ℕ)
    (ledger : IsLedger net held) (logged : IsLogged net log waiting) (socket : ℕ)
    (child_sockets : List ℕ) (n : ℕ) (some_worker : 0 < n) (all_workers : length child_sockets ≡ n)
    (fuel : ℕ) (enough : (k : K) → waiting k < fuel) where
  handle_event-IsTurn :
      (e : Event) (c : ℕ) (k : K)
      → IsTurn log child_sockets n c k (handle_event net socket child_sockets n fuel e (c % n) k)
  unfolding handle_event
  handle_event-IsTurn e c k = elim (Bool-cases (e.err || e.hup || not e.into)) [
    | inl bad ↦
        rw bad (none-IsTurn log child_sockets n c k (net.close k e.fd) (logged.close_log k e.fd).0)
    | inr good ↦ elim (Bool-cases (e.fd == socket)) [
      | inl here ↦
          let d =
            accept_loop-IsDealt net held log waiting ledger logged socket child_sockets n
              some_worker all_workers fuel c k (enough k) in
          rw (good, here)
            (record { state = d.state; fds = d.fds; returns = d.returns; log_after = d.log_after })
      | inr there ↦ rw (good, there) (none-IsTurn log child_sockets n c k k refl)
    ]
  ]

  handle_events-IsTurn :
      (es : List Event) (c : ℕ) (k : K)
      → IsTurn log child_sockets n c k (handle_events net socket child_sockets n fuel es (c % n) k)
  unfolding handle_events
  handle_events-IsTurn [] c k = none-IsTurn log child_sockets n c k k refl
  handle_events-IsTurn (e ∷ es) c k =
      and_then-IsTurn log child_sockets n c k _ _ (handle_event-IsTurn e c k)
        (handle_events-IsTurn es)

  rounds-IsTurn :
      (epfd : Option ℕ) (m c : ℕ) (k : K)
      → IsTurn log child_sockets n c k (rounds net socket child_sockets n epfd fuel m (c % n) k)
  unfolding rounds
  rounds-IsTurn epfd zero c k = none-IsTurn log child_sockets n c k k refl
  rounds-IsTurn epfd (suc m) c k =
      let (events, k1) = net.epoll_wait k epfd in
      from-IsTurn log child_sockets n c k k1 _ (logged.wait_log k epfd) (
        and_then-IsTurn log child_sockets n c k1 _ _ (handle_events-IsTurn events c k1)
          (rounds-IsTurn epfd m))

  set_nonblock_flag-log : (fd : ℕ) (r : Option ℕ × K) → log (set_nonblock_flag net fd r).1 ≡ log r.1
  set_nonblock_flag-log fd (none, k) = refl
  set_nonblock_flag-log fd (some flags, k) = logged.set_flags_log k fd (bit_or flags o_nonblock)

  -- Let there be one worker at least and a socket for each, let the calls of `accept` that give a
  -- descriptor and the calls of `sendmsg` be logged and no other call change that log, and let no
  -- more connections wait at any time than there is fuel for. Any number of rounds of
  -- `master_process` then end without a fault, whatever events are reported, and what they have
  -- accepted and passed to `sendmsg` is what the reference `dealt` says for the connections that
  -- they have accepted: each is passed, as it is accepted, to the socket of the next worker in
  -- turn, from the first on.
  pub master_process-IsTurn :
      (m : ℕ) (k : K)
      → IsTurn log child_sockets n 0 k (master_process net socket child_sockets n fuel m k)
  unfolding master_process set_non_block
  master_process-IsTurn m k =
      let (epfd, k1) = net.epoll_create k in
      let (r, k2) = set_non_block net socket k1 in
      let k3 = net.epoll_add k2 epfd socket (epollin + epollet) in
      let started : log k3 ≡ log k =
        logged.add_log k2 epfd socket (epollin + epollet)
        ∙ set_nonblock_flag-log socket (net.get_flags k1 socket)
        ∙ logged.get_flags_log k1 socket
        ∙ logged.create_log k in
      from-IsTurn log child_sockets n 0 k k3 _ started (
        subst
          (λ j.
            IsTurn log child_sockets n 0 k3 (rounds net socket child_sockets n epfd fuel m j k3))
          (zero-mod n) (rounds-IsTurn epfd m 0 k3))
