-- ===== src/Server.antt =====
-- c/src/server.c: the loops that read from a client and write to it. `none` is out of fuel, or an
-- `int` that cannot count the bytes: 2^31 of them or more.
pub mod Client
pub mod Sockets
pub mod Ledger
mod Tests
use artorias.Prelude.{
  ℕ, zero, suc, ◌+◌, ◌-◌, ◌^◌, Option, none, some, List, [], ◌∷◌, ◌==◌, ltb, if◌then◌else◌, length,
  drop,
}
use artorias.Worker.{ℤ, pos, negsuc}
use artorias.Kernel.{Got, got, read_error, Put, put, send_error, Kernel, eagain}

-- Goes on with a count, where it is one of an `int`.
abbrev pub fit_int : {A : Type 0} → ℕ → Option A → Option A
fit_int n next = if ltb n (2 ^ 31) then next else none

-- A round of the loop of `simple_read_from_client`; `again` is the next one.
abbrev pub after_read : {K : Type 0} → (ℕ → K → Option (ℤ × K)) → ℕ → Got × K → Option (ℤ × K)
after_read again n (got [], k) = some (pos 0, k)
after_read again n (got (x ∷ xs), k) = fit_int (n + length (x ∷ xs)) (again (n + length (x ∷ xs)) k)
after_read again n (read_error e, k) = some (if e == eagain then pos n else negsuc 0, k)

-- A round of the loop of `simple_write_to_client`.
abbrev pub after_write : {K : Type 0} → (ℕ → K → Option (ℤ × K)) → ℕ → Put × K → Option (ℤ × K)
after_write again i (put zero, k) = some (pos i, k)
after_write again i (put (suc n), k) = fit_int (i + suc n) (again (i + suc n) k)
after_write again i (send_error e, k) = some (if e == eagain then pos i else negsuc 0, k)

module _ {K : Type 0} (kernel : Kernel K) (fd : ℕ) where
  -- `MAXLEN` is 256.
  unfoldable pub read_from : ℕ → ℕ → K → Option (ℤ × K)
  read_from zero n k = none
  read_from (suc fuel) n k = after_read (read_from fuel) n (kernel.read k fd 256)

  unfoldable pub simple_read_from_client : ℕ → K → Option (ℤ × K)
  unfolding read_from
  simple_read_from_client fuel k = read_from fuel 0 k

  pub write_from : ℕ → List ℕ → ℕ → K → Option (ℤ × K)
  write_from zero buf i k = none
  write_from (suc fuel) buf i k =
      if ltb i (length buf)
      then after_write (write_from fuel buf) i (kernel.send k fd (drop i buf))
      else some (pos (length buf), k)

  pub simple_write_to_client : ℕ → List ℕ → K → Option (ℤ × K)
  unfolding write_from
  simple_write_to_client fuel buf k = write_from fuel buf 0 k
