-- ===== src/SelectServer.antt =====
-- c/src/select_server.c: the server that waits with `select`. A set of descriptors is a list of Booleans
-- of `FD_SETSIZE` entries; setting a descriptor behind its end writes outside of it: a fault.
pub mod Watch
mod Tests
use artorias.Prelude.{
  ℕ, zero, suc, ◌+◌, ◌-◌, Bool, true, false, Option, none, some, List, [], ◌∷◌, ◌==◌, ltb,
  if◌then◌else◌, length, get_or, set, replicate,
}
use artorias.Worker.{ℤ, pos, negsuc}
use artorias.Kernel.{Kernel}
use artorias.Net.{Accepted, accepted, accept_error, Net}
use artorias.Server.{simple_read_from_client}
use artorias.Server.Sockets.{new_accept_fd, set_non_block}

-- How a part of the server ends: with the set that is watched; or the process exits; `no_fuel` is also
-- an `int` that cannot count the bytes read.
pub data Watched (K : Type 0) : Type 0 where
  watched : List Bool → K → Watched K
  fault : Watched K
  exits : K → Watched K
  no_fuel : Watched K

abbrev pub and_then : {K : Type 0} → Watched K → (List Bool → K → Watched K) → Watched K
and_then (watched active k) next = next active k
and_then fault next = fault
and_then (exits k) next = exits k
and_then no_fuel next = no_fuel

-- "+OK\r\n"
abbrev pub answer : List ℕ
answer = 43 ∷ 79 ∷ 75 ∷ 13 ∷ 10 ∷ []

-- `write` writes bytes, and `select` gives the set of the descriptors that are ready, or -1.
module _ {K : Type 0} (net : Net K) (kernel : Kernel K) (write : K → ℕ → List ℕ → K)
    (select : K → List Bool → Option (List Bool) × K) (fd_setsize fuel fd : ℕ) where
  abbrev fd_set : ℕ → List Bool → K → Watched K
  fd_set infd active k =
      if ltb infd (length active) then watched (set active infd true) k else fault

  abbrev pub after_accept : List Bool → Accepted × K → Watched K
  after_accept active (accept_error e, k) = watched active k
  after_accept active (accepted infd, k) =
      let (r, k1) = set_non_block net infd k in fd_set infd active k1

  abbrev hang_up : ℕ → List Bool → K → Watched K
  hang_up i active k = watched (set active i false) (net.close k i)

  abbrev pub after_read : ℕ → List Bool → Option (ℤ × K) → Watched K
  after_read i active none = no_fuel
  after_read i active (some (negsuc m, k)) = hang_up i active k
  after_read i active (some (pos zero, k)) = hang_up i active k
  after_read i active (some (pos (suc n), k)) = watched active (write k i answer)

  -- One pass of the `for` loop.
  pub check : List Bool → ℕ → List Bool → K → Watched K
  check ready i active k =
      if get_or ready i false
      then if i == fd
        then after_accept active (new_accept_fd net fd k)
        else after_read i active (simple_read_from_client kernel i fuel k)
      else watched active k

  -- The `for` loop, of which `left` passes are left.
  pub check_all : List Bool → ℕ → ℕ → List Bool → K → Watched K
  unfolding check
  check_all ready zero i active k = watched active k
  check_all ready (suc left) i active k =
      and_then (check ready i active k) (check_all ready left (i + 1))

  abbrev pub after_select :
      (List Bool → K → Watched K) → List Bool → Option (List Bool) × K → Watched K
  after_select next active (none, k) = exits k
  after_select next active (some ready, k) = and_then (check_all ready fd_setsize 0 active k) next

  -- As many rounds of the `while (1)`.
  pub rounds : ℕ → List Bool → K → Watched K
  unfolding check_all
  rounds zero active k = watched active k
  rounds (suc m) active k = after_select (rounds m) active (select k active)

  pub select_server : ℕ → K → Watched K
  unfolding rounds
  select_server m k = and_then (fd_set fd (replicate fd_setsize false) k) (rounds m)
