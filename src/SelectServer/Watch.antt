-- ===== src/SelectServer/Watch.antt =====
-- c/src/select_server.c: the descriptors that the server watches are open.
use artorias.Prelude.{
  ℕ, ◌+◌, ◌^◌, ◌≤◌, ◌<◌, ◌≡◌, Bool, true, false, Option, none, some, List, [], ◌∷◌, ◌||◌, ◌==◌,
  length, get_or,
}
use artorias.Worker.{ℤ}
use artorias.Kernel.{got, Kernel}
use artorias.Net.{accepted, Net, IsLedger}
use artorias.Server
use artorias.SelectServer.{Watched, watched, fault, exits, no_fuel}

abbrev is_in : ℕ → List ℕ → Bool
is_in x [] = false
is_in x (y ∷ ys) = (x == y) || is_in x ys

-- A set of `size` entries, in which only open descriptors are.
pub record IsOpen {K : Type 0} (held : K → List ℕ) (size : ℕ) (active : List Bool) (k : K)
    : Type 0 where
  pub entries : length active ≡ size
  pub are_open : (i : ℕ) → get_or active i false ≡ true → is_in i (held k) ≡ true

-- So it is wherever a part of the server ends with a set. Something is written outside of one only
-- where `accept` has given a descriptor that is not below the size of a set.
abbrev pub Ends : {K : Type 0} → Net K → ℕ → (K → List ℕ) → ℕ → Watched K → Type 0
Ends net fd held size (watched active k) = IsOpen held size active k
Ends {K} net fd held size fault =
    (infd : ℕ) × (size ≤ infd) × ((k k' : K) × (net.accept k fd ≡ (accepted infd, k')))
Ends net fd held size (exits k) = Unit
Ends net fd held size no_fuel = ⊥

-- What is documented of the calls here: `read`, `write`, `select` and `fcntl` open and close no
-- descriptor. `unread` counts the bytes that `read` has still to give.
pub record Keeps {K : Type 0} (net : Net K) (kernel : Kernel K) (write : K → ℕ → List ℕ → K)
    (select : K → List Bool → Option (List Bool) × K) (held : K → List ℕ) (unread : K → ℕ)
    : Type 0 where
  pub read_takes :
      (k : K) (fd n x : ℕ) (xs : List ℕ) (k' : K)
      → kernel.read k fd n ≡ (got (x ∷ xs), k')
      → unread k' + length (x ∷ xs) ≤ unread k
  pub read_keeps : (k : K) (fd n : ℕ) → held (kernel.read k fd n).1 ≡ held k
  pub write_keeps : (k : K) (fd : ℕ) (xs : List ℕ) → held (write k fd xs) ≡ held k
  pub select_keeps : (k : K) (active : List Bool) → held (select k active).1 ≡ held k
  pub get_flags_keeps : (k : K) (fd : ℕ) → held (net.get_flags k fd).1 ≡ held k
  pub set_flags_keeps : (k : K) (fd flags : ℕ) → held (net.set_flags k fd flags).1 ≡ held k

module _ {K : Type 0} (net : Net K) (kernel : Kernel K) (write : K → ℕ → List ℕ → K)
    (select : K → List Bool → Option (List Bool) × K) (size fuel fd : ℕ) (held : K → List ℕ)
    (unread : K → ℕ) (ledger : IsLedger net held)
    (keeps : Keeps net kernel write select held unread) (enough : (k : K) → unread k < fuel)
    (few : fuel ≤ 2 ^ 31) where
  -- What reading leaves open.
  abbrev Reads : List ℕ → Option (ℤ × K) → Type 0
  Reads before none = ⊥
  Reads before (some (n, k)) = held k ≡ before
