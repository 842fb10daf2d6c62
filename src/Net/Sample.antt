-- ===== src/Net/Sample.antt =====
-- A kernel in which two connections wait and no connection can be made.
use artorias.Prelude.{ℕ, ◌<◌, ◌≡◌, refl, arith, true, false, some, List, [], ◌∷◌, ◌++◌}
use artorias.Kernel.{eagain}
use artorias.Net.{
  Accepted, accepted, accept_error, no_control, Event, Net, IsLedger, IsLogged, Passed, took, sent,
  remove,
}

pub data Backlog : Type 0 where
  two one empty : Backlog

pub record State : Type 0 where
  pub backlog : Backlog
  pub held : List ℕ
  pub log : List Passed

abbrev accept_from : State → Backlog → Accepted × State
accept_from k two =
    (accepted 7, record { backlog = one; held = 7 ∷ k.held; log = k.log ++ (took 7 ∷ []) })
accept_from k one =
    (accepted 8, record { backlog = empty; held = 8 ∷ k.held; log = k.log ++ (took 8 ∷ []) })
accept_from k empty = (accept_error eagain, k)

abbrev pub connection : Event
connection = record { fd = 3; err = false; hup = false; into = true; out = false }

abbrev pub net : Net State
net = record {
  socket = λ k. (some 9, record k { held = 9 ∷ k.held });
  set_reuse_address = λ k sock. k;
  bind = λ k sock port. (true, k);
  inet_aton = λ name. some 1;
  connect = λ k sock address port. (false, k);
  accept = λ k sock. accept_from k k.backlog;
  close = λ k fd. record k { held = remove fd k.held };
  get_flags = λ k fd. (some 2, k);
  set_flags = λ k fd flags. (true, k);
  set_send_buffer = λ k fd size. (true, k);
  get_send_buffer = λ k fd. (4096, k);
  sendmsg = λ k sock fd. (true, record k { log = k.log ++ (sent sock fd ∷ []) });
  recvmsg = λ k sock. (no_control, k);
  epoll_create = λ k. (some 4, k);
  epoll_add = λ k epfd fd events. k;
  epoll_del = λ k epfd fd. k;
  epoll_mod = λ k epfd fd events. k;
  epoll_wait = λ k epfd. (connection ∷ [], k);
}

abbrev count : Backlog → ℕ
count two = 2
count one = 1
count empty = 0

abbrev pub waiting : State → ℕ
waiting k = count k.backlog

abbrev pub begin : State
begin = record { backlog = two; held = 3 ∷ []; log = [] }

count_bound : (b : Backlog) → count b < 3
count_bound two = omega arith
count_bound one = omega arith
count_bound empty = omega arith

pub enough : (k : State) → waiting k < 3
enough k = count_bound k.backlog

pub ledger : IsLedger net (λ k. k.held)
ledger = record {
  socket_opens = λ k fd k' e. ground arith;
  socket_fails = λ k k' e. absurd cc;
  accept_opens = λ k sock fd k' e. ground arith;
  accept_fails = λ k sock e k' h. ground arith;
  close_closes = λ k fd. refl;
  reuse_keeps = λ k sock. refl;
  bind_keeps = λ k sock port. refl;
  connect_keeps = λ k sock address port. refl;
  sendmsg_keeps = λ k sock fd. refl;
}

pub logged : IsLogged net (λ k. k.log) waiting
logged = record {
  accept_log = λ k sock fd k' e. ground arith;
  fail_log = λ k sock err k' e. ground arith;
  send_log = λ k sock fd. (refl, refl);
  close_log = λ k fd. (refl, refl);
  wait_log = λ k epfd. refl;
  create_log = λ k. refl;
  add_log = λ k epfd fd events. refl;
  get_flags_log = λ k fd. refl;
  set_flags_log = λ k fd flags. refl;
}

-- `accept` fails when no connection waits.
pub none_waits :
    (sock : ℕ) (k : State) (e : ℕ) (k' : State)
    → net.accept k sock ≡ (accept_error e, k')
    → waiting k' ≡ 0
none_waits sock k e k' h = ground arith
