-- ===== src/Net.antt =====
-- The calls of the system that c/src/server.c, c/src/mw_server.c and c/src/epoll_server.c make on
-- sockets, with a state of the kernel, and what is documented of the descriptors that they open and
-- close.
pub mod Sample
use artorias.Prelude.{
  ℕ, suc, ◌≡◌, Bool, Option, none, some, List, [], ◌∷◌, ◌++◌, ◌==◌, if◌then◌else◌,
}

-- What `accept` returns: a descriptor, or -1 and `errno`.
pub data Accepted : Type 0 where
  accepted : ℕ → Accepted
  accept_error : ℕ → Accepted

-- What `recvmsg` returns: a message with a descriptor in its control data, one without control data
-- (also at the end of the stream), or -1 and `errno`.
pub data Received : Type 0 where
  received : ℕ → Received
  no_control : Received
  receive_error : ℕ → Received

-- `EPOLLIN` and `EPOLLET`
abbrev pub epollin : ℕ
epollin = 1

abbrev pub epollet : ℕ
epollet = 2147483648

-- What epoll reports of a descriptor.
pub record Event : Type 0 where
  pub fd : ℕ
  pub err : Bool
  pub hup : Bool
  pub into : Bool
  pub out : Bool

-- `none` and `false` stand for -1. `inet_aton` reads an address. The calls of `epoll_ctl` take the
-- descriptor of epoll, the descriptor and the events.
pub record Net (K : Type 0) : Type 0 where
  pub socket : K → Option ℕ × K
  pub set_reuse_address : K → ℕ → K
  pub bind : K → ℕ → ℕ → Bool × K
  pub inet_aton : List ℕ → Option ℕ
  pub connect : K → ℕ → ℕ → ℕ → Bool × K
  pub accept : K → ℕ → Accepted × K
  pub close : K → ℕ → K
  pub get_flags : K → ℕ → Option ℕ × K
  pub set_flags : K → ℕ → ℕ → Bool × K
  pub set_send_buffer : K → ℕ → ℕ → Bool × K
  pub get_send_buffer : K → ℕ → ℕ × K
  pub sendmsg : K → ℕ → ℕ → Bool × K
  pub recvmsg : K → ℕ → Received × K
  pub epoll_create : K → Option ℕ × K
  pub epoll_add : K → Option ℕ → ℕ → ℕ → K
  pub epoll_del : K → Option ℕ → Option ℕ → K
  pub epoll_mod : K → Option ℕ → ℕ → ℕ → K
  pub epoll_wait : K → Option ℕ → List Event × K

-- The first time that it stands there.
abbrev pub remove : ℕ → List ℕ → List ℕ
remove fd [] = []
remove fd (x ∷ xs) = let rest = remove fd xs in if fd == x then xs else x ∷ rest

-- `held` are the descriptors that the process holds: a call that makes one adds it, `close` takes it
-- away, and no other call that is used here changes them.
pub record IsLedger {K : Type 0} (net : Net K) (held : K → List ℕ) : Type 0 where
  pub socket_opens :
      (k : K) (fd : ℕ) (k' : K) → net.socket k ≡ (some fd, k') → held k' ≡ fd ∷ held k
  pub socket_fails : (k k' : K) → net.socket k ≡ (none, k') → held k' ≡ held k
  pub accept_opens :
      (k : K) (sock fd : ℕ) (k' : K) → net.accept k sock ≡ (accepted fd, k') → held k' ≡ fd ∷ held k
  pub accept_fails :
      (k : K) (sock e : ℕ) (k' : K) → net.accept k sock ≡ (accept_error e, k') → held k' ≡ held k
  pub close_closes : (k : K) (fd : ℕ) → held (net.close k fd) ≡ remove fd (held k)
  pub reuse_keeps : (k : K) (sock : ℕ) → held (net.set_reuse_address k sock) ≡ held k
  pub bind_keeps : (k : K) (sock port : ℕ) → held (net.bind k sock port).1 ≡ held k
  pub connect_keeps :
      (k : K) (sock address port : ℕ) → held (net.connect k sock address port).1 ≡ held k
  pub sendmsg_keeps : (k : K) (sock fd : ℕ) → held (net.sendmsg k sock fd).1 ≡ held k

-- What passes between the master and its workers: a descriptor is accepted, or sent on a socket.
pub data Passed : Type 0 where
  took : ℕ → Passed
  sent : (socket fd : ℕ) → Passed

-- `log` are the calls of `accept` that gave a descriptor and the calls of `sendmsg`, and `waiting` is how
-- many connections `accept` has still to give before it fails.
pub record IsLogged {K : Type 0} (net : Net K) (log : K → List Passed) (waiting : K → ℕ)
    : Type 0 where
  pub accept_log :
      (k : K) (sock fd : ℕ) (k' : K)
      → net.accept k sock ≡ (accepted fd, k')
      → (log k' ≡ log k ++ (took fd ∷ [])) × (waiting k ≡ suc (waiting k'))
  pub fail_log :
      (k : K) (sock e : ℕ) (k' : K)
      → net.accept k sock ≡ (accept_error e, k')
      → (log k' ≡ log k) × (waiting k' ≡ waiting k)
  pub send_log :
      (k : K) (sock fd : ℕ)
      → let k' = (net.sendmsg k sock fd).1 in
        (log k' ≡ log k ++ (sent sock fd ∷ [])) × (waiting k' ≡ waiting k)
  pub close_log :
      (k : K) (fd : ℕ) → (log (net.close k fd) ≡ log k) × (waiting (net.close k fd) ≡ waiting k)
  pub wait_log : (k : K) (epfd : Option ℕ) → log (net.epoll_wait k epfd).1 ≡ log k
  pub create_log : (k : K) → log (net.epoll_create k).1 ≡ log k
  pub add_log :
      (k : K) (epfd : Option ℕ) (fd events : ℕ) → log (net.epoll_add k epfd fd events) ≡ log k
  pub get_flags_log : (k : K) (fd : ℕ) → log (net.get_flags k fd).1 ≡ log k
  pub set_flags_log : (k : K) (fd flags : ℕ) → log (net.set_flags k fd flags).1 ≡ log k
