-- ===== src/Server/Sockets.antt =====
-- c/src/server.c: the functions that make sockets, accept connections and pass descriptors on.
use artorias.Prelude.{ℕ, Bool, true, false, Option, none, some, List, if◌then◌else◌, bit_or}
use artorias.Worker.{ℤ, pos, negsuc}
use artorias.Net.{Accepted, Received, received, no_control, receive_error, Net}

-- `O_NONBLOCK`
abbrev pub o_nonblock : ℕ
o_nonblock = 2048

-- How a call of `recv_fd_from_socket` ends: a result, or a read through NULL.
pub data Descriptor (K : Type 0) : Type 0 where
  result : ℤ → K → Descriptor K
  null_read : Descriptor K

abbrev flagged : {K : Type 0} → Bool × K → ℤ × K
flagged r = (if r.0 then pos 0 else negsuc 0, r.1)

abbrev descriptor : {K : Type 0} → Received × K → Descriptor K
descriptor (received fd, k) = result (pos fd) k
descriptor (no_control, k) = null_read
descriptor (receive_error e, k) = result (negsuc 0) k

module _ {K : Type 0} (net : Net K) where
  abbrev pub set_nonblock_flag : ℕ → Option ℕ × K → ℤ × K
  set_nonblock_flag fd (none, k) = (negsuc 0, k)
  set_nonblock_flag fd (some flags, k) = flagged (net.set_flags k fd (bit_or flags o_nonblock))

  unfoldable pub set_non_block : ℕ → K → ℤ × K
  set_non_block fd k = set_nonblock_flag fd (net.get_flags k fd)

  unfoldable pub simple_bind_name_to_socket : ℕ → ℕ → K → Bool × K
  simple_bind_name_to_socket sock port k = net.bind k sock port

  abbrev pub connect_to : ℕ → ℕ → K → Option ℕ → Bool × K
  connect_to sock port k none = (false, k)
  connect_to sock port k (some address) = net.connect k sock address port

  unfoldable pub simple_connect_socket : ℕ → List ℕ → ℕ → K → Bool × K
  simple_connect_socket sock hostname port k = connect_to sock port k (net.inet_aton hostname)

  -- A step on the socket `sock` has gone well, or the socket is closed.
  abbrev pub or_close : ℕ → Bool × K → (K → ℤ × K) → ℤ × K
  or_close sock (true, k) next = next k
  or_close sock (false, k) next = (negsuc 0, net.close k sock)

  -- A socket has been made, or the call fails.
  abbrev pub with_socket : Option ℕ × K → (ℕ → K → ℤ × K) → ℤ × K
  with_socket (none, k) next = (negsuc 0, k)
  with_socket (some sock, k) next = next sock k

  unfoldable pub make_server_socket : ℕ → K → ℤ × K
  unfolding simple_bind_name_to_socket
  make_server_socket port k = with_socket (net.socket k) (λ sock k.
      or_close sock (simple_bind_name_to_socket sock port (net.set_reuse_address k sock))
        (λ k. (pos sock, k)))

  unfoldable pub make_client_socket : List ℕ → ℕ → K → ℤ × K
  unfolding simple_bind_name_to_socket simple_connect_socket
  make_client_socket hostname port k = with_socket (net.socket k) (λ sock k.
      or_close sock (simple_bind_name_to_socket sock 0 k)
        (λ k. or_close sock (simple_connect_socket sock hostname port k) (λ k. (pos sock, k))))

  unfoldable pub new_accept_fd : ℕ → K → Accepted × K
  new_accept_fd fd k = net.accept k fd

  unfoldable pub send_fd_by_socket : ℕ → ℕ → K → ℤ × K
  send_fd_by_socket socket fd k = flagged (net.sendmsg k socket fd)

  -- `CMSG_FIRSTHDR` is NULL for a message without control data.
  recv_fd_from_socket : ℕ → K → Descriptor K
  recv_fd_from_socket socket k = descriptor (net.recvmsg k socket)

  abbrev buffer_size : ℕ → Bool × K → ℤ × K
  buffer_size fd (false, k) = (negsuc 0, k)
  buffer_size fd (true, k) = let (size, k') = net.get_send_buffer k fd in (pos size, k')

  unfoldable pub set_socket_send_buffer_size : ℕ → ℕ → K → ℤ × K
  set_socket_send_buffer_size fd snd_size k = buffer_size fd (net.set_send_buffer k fd snd_size)
