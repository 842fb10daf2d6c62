-- ===== src/Master/Start.antt =====
-- c/src/mw_server.c: `master_workers_server` makes a socket pair and a process for each worker. A
-- variable that has not been written holds `none`.
pub mod Connected
use artorias.Prelude.{
  ℕ, zero, suc, ◌+◌, ◌-◌, ◌≤◌, ◌≡◌, refl, ap, sym, ◌∙◌, Bool, true, false, Option, none, some, List,
  [], ◌∷◌, ◌++◌, arith, ◌==◌, length, set, replicate, if◌then◌else◌,
}
use artorias.Worker.{ℤ, pos, negsuc}
use artorias.Net.{Net}
use artorias.Server.Sockets.{make_server_socket, set_non_block}

-- What `fork` returns: 0, the child's pid, or -1.
pub data Fork : Type 0 where
  in_child in_parent fork_failed : Fork

-- The calls on processes: `socketpair`, `fork` and `listen`.
pub record Processes (K : Type 0) : Type 0 where
  pub socketpair : K → Option (ℕ × ℕ) × K
  pub fork : K → Fork × K
  pub listen : K → ℕ → ℕ → Bool × K

-- How the function goes on: as the master with its array, as a worker with its end of a pair, or the
-- process exits; or it reads a variable that has not been written.
pub data Started (K : Type 0) : Type 0 where
  master : (fd : ℕ) → List (Option ℕ) → K → Started K
  worker : (channel_fd : ℕ) → K → Started K
  exits : K → Started K
  unwritten : Started K

module _ {K : Type 0} (net : Net K) (processes : Processes K) where
  abbrev Loop : Type 0
  Loop = List (Option ℕ) → Option (ℕ × ℕ) → K → Started K

  -- `child == -1`, `child` and 0.
  abbrev after_fork : Loop → ℕ → List (Option ℕ) → Option (ℕ × ℕ) → Fork × K → Started K
  after_fork next i child_sockets sockets (fork_failed, k) = next child_sockets sockets k
  after_fork next i child_sockets none (in_parent, k) = unwritten
  after_fork next i child_sockets (some (a, b)) (in_parent, k) =
      next (set child_sockets i (some b)) (some (a, b)) (net.close k a)
  after_fork next i child_sockets none (in_child, k) = unwritten
  after_fork next i child_sockets (some (a, b)) (in_child, k) = worker a (net.close k b)

  -- A pair that cannot be made leaves `sockets` as it is.
  abbrev after_pair : Loop → ℕ → List (Option ℕ) → Option (ℕ × ℕ) → Option (ℕ × ℕ) × K → Started K
  after_pair next i child_sockets sockets (none, k) =
      after_fork next i child_sockets sockets (processes.fork k)
  after_pair next i child_sockets sockets (some pair, k) =
      after_fork next i child_sockets (some pair) (processes.fork k)

  -- The loop over the workers, of which `left` are left.
  pub spawn : ℕ → ℕ → ℕ → Loop
  spawn fd zero i child_sockets sockets k = master fd child_sockets k
  spawn fd (suc left) i child_sockets sockets k =
      after_pair (spawn fd left (i + 1)) i child_sockets sockets (processes.socketpair k)

  -- Without workers, `child` has not been written when it is read.
  pub start : ℕ → ℕ → K → Started K
  unfolding spawn
  start n fd k = if n == 0 then unwritten else spawn fd n 0 (replicate n none) none k

  abbrev after_listen : ℕ → ℕ → Bool × K → Started K
  after_listen n fd (true, k) = start n fd k
  after_listen n fd (false, k) = exits k

  pub after_socket : ℕ → ℤ × K → Started K
  unfolding set_non_block start
  after_socket n (negsuc e, k) = exits k
  after_socket n (pos fd, k) =
      let (r, k1) = set_non_block net fd k in after_listen n fd (processes.listen k1 fd 500)

  -- The two settings `tcp_port` and `n_workers` are arguments.
  pub master_workers_server : ℕ → ℕ → K → Started K
  unfolding make_server_socket after_socket
  master_workers_server port n k = after_socket n (make_server_socket net port k)
