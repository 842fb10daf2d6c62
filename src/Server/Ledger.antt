-- ===== src/Server/Ledger.antt =====
-- c/src/server.c: which descriptors are open after a socket has been made, or has not.
use artorias.Prelude.{
  ℕ, ◌≡◌, refl, ◌∙◌, Bool, true, false, Option, none, some, List, ◌∷◌, ◌==◌, arith,
}
use artorias.Worker.{ℤ, pos, negsuc}
use artorias.Net.{Net, IsLedger}
use artorias.Server.Sockets.{
  connect_to, or_close, with_socket, simple_bind_name_to_socket, simple_connect_socket,
  make_server_socket, make_client_socket,
}

-- A new descriptor is open beside those that were, or the call has failed and those that were are.
abbrev pub IsOpened : {K : Type 0} → (K → List ℕ) → List ℕ → ℤ × K → Type 0
IsOpened held before (pos fd, k) = held k ≡ fd ∷ before
IsOpened held before (negsuc n, k) = (n ≡ 0) × (held k ≡ before)

module _ {K : Type 0} (net : Net K) (held : K → List ℕ) (ledger : IsLedger net held) where
  close_new :
      (k : K) (sock : ℕ) (before : List ℕ)
      → held k ≡ sock ∷ before
      → held (net.close k sock) ≡ before
  close_new k sock before e =
      let same : (sock == sock) ≡ true = ground arith in
      ledger.close_closes k sock ∙ rw (e, same) refl

  or_close-IsOpened :
      (sock : ℕ) (before : List ℕ) (r : Bool × K) (next : K → ℤ × K)
      → held r.1 ≡ sock ∷ before
      → ((k : K) → held k ≡ sock ∷ before → IsOpened held before (next k))
      → IsOpened held before (or_close net sock r next)
  or_close-IsOpened sock before (true, k) next e f = f k e
  or_close-IsOpened sock before (false, k) next e f = (refl, close_new k sock before e)

  with_socket-IsOpened :
      (k : K) (r : Option ℕ × K) (next : ℕ → K → ℤ × K)
      → net.socket k ≡ r
      → ((sock : ℕ) (k' : K) → held k' ≡ sock ∷ held k → IsOpened held (held k) (next sock k'))
      → IsOpened held (held k) (with_socket net r next)
  with_socket-IsOpened k (none, k') next e f = (refl, ledger.socket_fails k k' e)
  with_socket-IsOpened k (some sock, k') next e f = f sock k' (ledger.socket_opens k sock k' e)

  connect_to-open :
      (sock port : ℕ) (k : K) (address : Option ℕ)
      → held (connect_to net sock port k address).1 ≡ held k
  connect_to-open sock port k none = refl
  connect_to-open sock port k (some address) = ledger.connect_keeps k sock address port

  -- The last step of both functions.
  bound-IsOpened :
      (sock : ℕ) (before : List ℕ) (r : Bool × K)
      → held r.1 ≡ sock ∷ before
      → IsOpened held before (or_close net sock r (λ k. (pos sock, k)))
  bound-IsOpened sock before r e =
      or_close-IsOpened sock before r (λ k. (pos sock, k)) e (λ k e'. e')

  make_server_socket-IsOpened :
      (port : ℕ) (k : K) → IsOpened held (held k) (make_server_socket net port k)
  unfolding make_server_socket simple_bind_name_to_socket
  make_server_socket-IsOpened port k = with_socket-IsOpened k _ _ refl (λ sock k1 e1.
      bound-IsOpened sock (held k) (net.bind (net.set_reuse_address k1 sock) sock port) (
        ledger.bind_keeps (net.set_reuse_address k1 sock) sock port
        ∙ ledger.reuse_keeps k1 sock
        ∙ e1))

  make_client_socket-IsOpened :
      (hostname : List ℕ) (port : ℕ) (k : K)
      → IsOpened held (held k) (make_client_socket net hostname port k)
  unfolding make_client_socket simple_bind_name_to_socket simple_connect_socket
  make_client_socket-IsOpened hostname port k = with_socket-IsOpened k _ _ refl (λ sock k1 e1.
      or_close-IsOpened sock (held k) (net.bind k1 sock 0)
        (λ k2.
          or_close net sock (connect_to net sock port k2 (net.inet_aton hostname))
            (λ k3. (pos sock, k3)))
        (ledger.bind_keeps k1 sock 0 ∙ e1)
        (λ k2 e2.
          bound-IsOpened sock (held k) (connect_to net sock port k2 (net.inet_aton hostname))
            (connect_to-open sock port k2 (net.inet_aton hostname) ∙ e2)))

  -- Where the calls open and close descriptors as documented, `make_server_socket` and
  -- `make_client_socket` either return a descriptor, and it is the one that has been opened, or
  -- they return -1, and the descriptors that are open are those of before.
  pub sockets-IsOpened :
      (hostname : List ℕ) (port : ℕ) (k : K)
      → IsOpened held (held k) (make_server_socket net port k)
        × IsOpened held (held k) (make_client_socket net hostname port k)
  sockets-IsOpened hostname port k =
      (make_server_socket-IsOpened port k, make_client_socket-IsOpened hostname port k)
