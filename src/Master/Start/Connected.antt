-- ===== src/Master/Start/Connected.antt =====
-- c/src/mw_server.c: the array `child_sockets` when every pair and every process can be made.
use artorias.Prelude.{
  ℕ, zero, suc, ◌+◌, ◌<◌, ◌≡◌, refl, ap, ◌∙◌, subst, true, false, Option, none, some, List, [], ◌∷◌,
  ◌++◌, arith, ◌==◌, length, set, replicate, length-append, append_nil,
}
use artorias.Worker.{pos}
use artorias.Net.{Net}
use artorias.Server.Sockets.{make_server_socket, set_non_block}
use artorias.Master.Start.{
  in_parent, Processes, Started, master, spawn, start, after_socket, master_workers_server,
}

abbrev pub written : List ℕ → List (Option ℕ)
written [] = []
written (x ∷ xs) = some x ∷ written xs

-- The master runs with a socket for each of `n` workers, all of them written.
pub record IsConnected {K : Type 0} (fd n : ℕ) (r : Started K) : Type 0 where
  pub sockets : List ℕ
  pub state : K
  pub returns : r ≡ master fd (written sockets) state
  pub all_workers : length sockets ≡ n

set-written :
    (xs : List ℕ) (x : ℕ) (rest : List (Option ℕ))
    → set (written xs ++ (none ∷ rest)) (length xs) (some x) ≡ written (xs ++ (x ∷ [])) ++ rest
set-written [] x rest = refl
set-written (y ∷ xs) x rest = ap (some y ∷◌) (set-written xs x rest)

-- Every call of `socketpair` and of `fork` succeeds, and this is the parent.
pub record Succeeds {K : Type 0} (processes : Processes K) : Type 0 where
  pub pair : (k : K) → (a : ℕ) × (b : ℕ) × (k' : K) × (processes.socketpair k ≡ (some (a, b), k'))
  pub forks : (k : K) → (k' : K) × (processes.fork k ≡ (in_parent, k'))

module _ {K : Type 0} (net : Net K) (processes : Processes K) (good : Succeeds processes) where
  spawn-IsConnected :
      (fd left : ℕ) (xs : List ℕ) (i : ℕ) (sockets : Option (ℕ × ℕ)) (k : K)
      → i ≡ length xs
      → IsConnected fd
          (length xs + left)
          (spawn net processes fd left i (written xs ++ replicate left none) sockets k)
  unfolding spawn
  spawn-IsConnected fd zero xs i sockets k e = record {
    sockets = xs;
    state = k;
    returns = rw (append_nil (written xs)) refl;
    all_workers = omega arith;
  }
  spawn-IsConnected fd (suc left) xs i sockets k e =
      let (a, b, k1, pair) = good.pair k in
      let (k2, forked) = good.forks k1 in
      let k3 = net.close k2 a in
      let longer : i + 1 ≡ length (xs ++ (b ∷ [])) = omega (arith, length-append xs (b ∷ [])) in
      let rest = spawn-IsConnected fd left (xs ++ (b ∷ [])) (i + 1) (some (a, b)) k3 longer in
      record {
        sockets = rest.sockets;
        state = rest.state;
        returns =
            rw (pair, forked, e, set-written xs b (replicate left none))
              (subst
                (λ j.
                  spawn net processes fd left (j + 1)
                    (written (xs ++ (b ∷ [])) ++ replicate left none) (some (a, b)) k3
                  ≡ master fd (written rest.sockets) rest.state)
                e rest.returns);
        all_workers = rest.all_workers ∙ omega (arith, length-append xs (b ∷ []));
      }

  start-IsConnected : (n fd : ℕ) (k : K) → 0 < n → IsConnected fd n (start net processes n fd k)
  unfolding start
  start-IsConnected n fd k some_worker =
      let not_zero : (n == 0) ≡ false = ground arith in
      let c = spawn-IsConnected fd n [] 0 none k refl in
      record {
        sockets = c.sockets;
        state = c.state;
        returns = rw not_zero c.returns;
        all_workers = c.all_workers ∙ omega arith;
      }

  -- Where a socket is made and listens, there is one worker at least, and every call of
  -- `socketpair` and `fork` succeeds in the parent, `master_workers_server` goes on as the master
  -- with that socket and an array that has a socket written for each worker, and reads no variable
  -- that has not been written.
  pub master_workers_server-IsConnected :
      (port n fd : ℕ) (k k1 k2 : K)
      → 0 < n
      → make_server_socket net port k ≡ (pos fd, k1)
      → processes.listen (set_non_block net fd k1).1 fd 500 ≡ (true, k2)
      → IsConnected fd n (master_workers_server net processes port n k)
  unfolding master_workers_server after_socket
  master_workers_server-IsConnected port n fd k k1 k2 some_worker made listens =
      let c = start-IsConnected n fd k2 some_worker in
      record {
        sockets = c.sockets;
        state = c.state;
        returns = rw (made, listens) c.returns;
        all_workers = c.all_workers;
      }
