-- ===== src/EpollServer/Tests.antt =====
-- c/src/epoll_server.c: one client, which hangs up; a state is what epoll watches.
use artorias.Prelude.{
  ℕ, ◌≡◌, refl, false, true, if◌then◌else◌, none, some, List, [], ◌∷◌, arith, ◌==◌,
}
use artorias.Kernel.{got, put, Kernel, eagain}
use artorias.Net.{accepted, accept_error, no_control, Event, Net, remove}
use artorias.EpollServer.{served, holds, epoll_server}
use artorias.EpollServer.Variable.{is_in, AreIn, IsWatch, IsSafe, epoll_server-IsSafe}

-- Input on the descriptor that was added last.
abbrev ready : List ℕ → List Event
ready [] = []
ready (x ∷ xs) = record { fd = x; err = false; hup = false; into = true; out = false } ∷ []

abbrev net : Net (List ℕ)
net = record {
  socket = λ k. (none, k);
  set_reuse_address = λ k sock. k;
  bind = λ k sock port. (false, k);
  inet_aton = λ name. none;
  connect = λ k sock address port. (false, k);
  accept = λ k sock. (if is_in 7 k then accept_error eagain else accepted 7, k);
  close = λ k fd. remove fd k;
  get_flags = λ k fd. (some 2, k);
  set_flags = λ k fd flags. (true, k);
  set_send_buffer = λ k fd size. (true, k);
  get_send_buffer = λ k fd. (4096, k);
  sendmsg = λ k sock fd. (false, k);
  recvmsg = λ k sock. (no_control, k);
  epoll_create = λ k. (some 4, []);
  epoll_add = λ k epfd fd events. fd ∷ k;
  epoll_del = λ k epfd fd. k;
  epoll_mod = λ k epfd fd events. k;
  epoll_wait = λ k epfd. (ready k, k);
}

abbrev kernel : Kernel (List ℕ)
kernel = record { read = λ k fd n. (got [], k); send = λ k fd xs. (put 5, k) }

ready-AreIn : (k : List ℕ) → AreIn k (ready k)
ready-AreIn [] = tt
ready-AreIn (x ∷ xs) = let same : (x == x) ≡ true = ground arith in rw same (refl, tt)

watch : IsWatch net (λ k. k)
watch = record {
  create_none = λ k. refl;
  get_flags_keeps = λ k fd. refl;
  set_flags_keeps = λ k fd flags. refl;
  add_adds = λ k epfd fd events. refl;
  close_removes = λ k fd. refl;
  wait_keeps = λ k epfd. refl;
  wait_reports = λ k epfd. ready-AreIn k;
}

-- In the second round the client hangs up.
two_rounds : epoll_server net kernel 3 4 2 [] ≡ served (holds 7) (3 ∷ [])
unfolding epoll_server
two_rounds = refl

epoll_server-IsSafe_example : IsSafe (λ k. k) 3 (epoll_server net kernel 3 4 2 [])
epoll_server-IsSafe_example = epoll_server-IsSafe net kernel (λ k. k) 3 4 2 [] watch
