-- ===== src/Kernel.antt =====
-- The system calls `read` and `send` that c/src/lm_socket.c, c/src/server.c and c/src/bytes.c make: a
-- state of the kernel, what the calls return, and what is documented of `send`.
pub mod Sample
use artorias.Prelude.{ℕ, ◌≤◌, ◌<◌, ◌≡◌, List, ◌++◌, length, take}

-- What `read` returns: bytes (none of them at the end of the file), or -1 and `errno`.
pub data Got : Type 0 where
  got : List ℕ → Got
  read_error : ℕ → Got

-- What `send` returns: how many bytes it took, or -1 and `errno`.
pub data Put : Type 0 where
  put : ℕ → Put
  send_error : ℕ → Put

pub record Kernel (K : Type 0) : Type 0 where
  pub read : K → ℕ → ℕ → Got × K
  pub send : K → ℕ → List ℕ → Put × K

-- `accepted k fd` are the bytes that `send` has taken for `fd`, in order: those at the front of its
-- buffer, as many as it returns, and one at least where there is one.
pub record IsStream {K : Type 0} (kernel : Kernel K) (accepted : K → ℕ → List ℕ) : Type 0 where
  pub bounded :
      (k : K) (fd n : ℕ) (xs : List ℕ) (k' : K) → kernel.send k fd xs ≡ (put n, k') → n ≤ length xs
  pub positive :
      (k : K) (fd n : ℕ) (xs : List ℕ) (k' : K)
      → kernel.send k fd xs ≡ (put n, k')
      → 0 < length xs
      → 0 < n
  pub taken :
      (k : K) (fd n : ℕ) (xs : List ℕ) (k' : K)
      → kernel.send k fd xs ≡ (put n, k')
      → accepted k' fd ≡ accepted k fd ++ take n xs
  pub refused :
      (k : K) (fd e : ℕ) (xs : List ℕ) (k' : K)
      → kernel.send k fd xs ≡ (send_error e, k')
      → accepted k' fd ≡ accepted k fd

-- `EAGAIN`, `EINVAL`, `EBADFD` and `ETIMEDOUT`
abbrev pub eagain : ℕ
eagain = 11

abbrev pub einval : ℕ
einval = 22

abbrev pub ebadfd : ℕ
ebadfd = 77

abbrev pub etimedout : ℕ
etimedout = 110
