-- ===== src/Master/Deal.antt =====
-- c/src/mw_server.c: to which worker each connection goes.
use artorias.Prelude.{
  ℕ, zero, suc, ◌+◌, ◌%◌, ◌<◌, ◌≡◌, refl, sym, ap, ◌∙◌, true, false, some, List, [], ◌∷◌, ◌++◌,
  arith, ◌==◌, length, get_elem?, get_or, get_elem?-eq-get_or, append_assoc, append_nil,
}
use native.Mathlib.Nat.{mod-lt, mod-add-mod}
use artorias.Net.{Accepted, accepted, accept_error, Net, IsLedger, IsLogged, Passed, took, sent}
use artorias.Server.Sockets.{new_accept_fd, send_fd_by_socket}
use artorias.Master.{Turn, turn, after_accept, accept_loop}

-- The workers take turns, the first connection going to the worker `c % n`.
abbrev pub dealt : List ℕ → ℕ → ℕ → List ℕ → List Passed
dealt child_sockets n c [] = []
dealt child_sockets n c (fd ∷ fds) =
    took fd ∷ (sent (get_or child_sockets (c % n) 0) fd ∷ dealt child_sockets n (suc c) fds)

-- What a loop over the connections leaves: it has dealt them out in turns, holds none of them, and
-- gives the turn to the worker behind the last one.
pub record IsDealt {K : Type 0} (held : K → List ℕ) (log : K → List Passed) (waiting : K → ℕ)
    (child_sockets : List ℕ) (n c : ℕ) (k : K) (r : Turn K) : Type 0 where
  pub state : K
  pub fds : List ℕ
  pub returns : r ≡ turn ((c + length fds) % n) state
  pub log_after : log state ≡ log k ++ dealt child_sockets n c fds
  pub held_after : held state ≡ held k
  pub waiting_after : waiting k ≡ length fds + waiting state

two_more :
    (xs : List Passed) (x y : Passed) (ys : List Passed)
    → ((xs ++ (x ∷ [])) ++ (y ∷ [])) ++ ys ≡ xs ++ (x ∷ (y ∷ ys))
two_more xs x y ys = append_assoc (xs ++ (x ∷ [])) (y ∷ []) ys ∙ append_assoc xs (x ∷ []) (y ∷ ys)

module _ {K : Type 0} (net : Net K) (held : K → List ℕ) (log : K → List Passed) (waiting : K → ℕ)
    (ledger : IsLedger net held) (logged : IsLogged net log waiting) (socket : ℕ)
    (child_sockets : List ℕ) (n : ℕ) (some_worker : 0 < n)
    (all_workers : length child_sockets ≡ n) where
  -- A descriptor that has been accepted and sent is closed.
  closes :
      (k k1 : K) (fd : ℕ) (before : List ℕ)
      → held k1 ≡ held k
      → held k ≡ fd ∷ before
      → held (net.close k1 fd) ≡ before
  closes k k1 fd before e1 e2 =
      let same : (fd == fd) ≡ true = ground arith in
      ledger.close_closes k1 fd ∙ rw (e1, e2, same) refl

  after_accept-IsDealt :
      (again : ℕ → K → Turn K) (c : ℕ) (k : K) (r : Accepted × K)
      → net.accept k socket ≡ r
      → ((k' : K)
          → suc (waiting k') ≡ waiting k
          → IsDealt held log waiting child_sockets n (suc c) k' (again (suc c % n) k'))
      → IsDealt held log waiting child_sockets n c k
          (after_accept net socket child_sockets n again (c % n) r)
  unfolding send_fd_by_socket
  after_accept-IsDealt again c k (accept_error e, k') a next =
      let same : c + 0 ≡ c = omega arith in
      record {
        state = k';
        fds = [];
        returns = rw same refl;
        log_after = (logged.fail_log k socket e k' a).0 ∙ sym (append_nil (log k));
        held_after = ledger.accept_fails k socket e k' a;
        waiting_after = let w = (logged.fail_log k socket e k' a).1 in omega arith;
      }
  after_accept-IsDealt again c k (accepted fd, k') a next =
      let child = get_or child_sockets (c % n) 0 in
      let k1 = (net.sendmsg k' child fd).1 in
      let k2 = net.close k1 fd in
      let (log1, waiting1) = logged.accept_log k socket fd k' a in
      let (log2, waiting2) = logged.send_log k' child fd in
      let (log3, waiting3) = logged.close_log k1 fd in
      let rest = next k2 (sym (waiting1 ∙ ap suc (sym (waiting3 ∙ waiting2)))) in
      let in_range : get_elem? child_sockets (c % n) ≡ some child =
        get_elem?-eq-get_or child_sockets (c % n) 0 (let h = mod-lt c some_worker in omega arith) in
      let not_zero : (n == 0) ≡ false = ground arith in
      let next_turn : (c % n + 1) % n ≡ suc c % n =
        mod-add-mod c n 1 ∙ (let e : c + 1 ≡ suc c = omega arith in ap (λ m. m % n) e) in
      let ends : c + suc (length rest.fds) ≡ suc c + length rest.fds = omega arith in
      record {
        state = rest.state;
        fds = fd ∷ rest.fds;
        returns = rw (in_range, not_zero, next_turn, ends) rest.returns;
        log_after =
            rest.log_after
            ∙ rw (log3, log2, log1)
                (two_more (log k) (took fd) (sent child fd)
                  (dealt child_sockets n (suc c) rest.fds));
        held_after =
            rest.held_after
            ∙ closes k' k1 fd (held k) (ledger.sendmsg_keeps k' child fd)
                (ledger.accept_opens k socket fd k' a);
        waiting_after = let w = rest.waiting_after in omega arith;
      }

  -- Let there be one worker at least and a socket for each, let the calls open, close and log
  -- descriptors as documented, and let fewer connections wait than there is fuel. The loop that
  -- accepts connections, from the turn of the worker `c % n`, then ends without a read outside of
  -- `child_sockets`; each connection accepted has been sent to the next worker in turn; and the
  -- descriptors that the master holds are those of before: it has closed each one.
  pub accept_loop-IsDealt :
      (fuel c : ℕ) (k : K)
      → waiting k < fuel
      → IsDealt held log waiting child_sockets n c k
          (accept_loop net socket child_sockets n fuel (c % n) k)
  unfolding accept_loop new_accept_fd
  accept_loop-IsDealt zero c k enough = absurd (omega arith)
  accept_loop-IsDealt (suc fuel) c k enough =
      after_accept-IsDealt (accept_loop net socket child_sockets n fuel) c k _ refl
        (λ k' fewer. accept_loop-IsDealt fuel (suc c) k' (omega arith))
