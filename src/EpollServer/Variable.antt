-- ===== src/EpollServer/Variable.antt =====
-- c/src/epoll_server.c: the variable `infd`, which is read by `EPOLL_CTL_DEL`, is written before.
use artorias.Prelude.{
  ℕ, zero, suc, ◌+◌, ◌≡◌, refl, sym, ap, subst, ◌∙◌, inl, inr, Bool, true, false, not, ◌||◌, Option,
  none, some, List, [], ◌∷◌, arith, ◌==◌, Bool-cases, bit_or,
}
use artorias.Worker.{ℤ, pos, negsuc}
use artorias.Kernel.{Got, got, read_error, Kernel, eagain}
use artorias.Net.{Accepted, accepted, accept_error, epollin, epollet, Event, Net, remove}
use artorias.Server.Sockets.{new_accept_fd, set_non_block, set_nonblock_flag, o_nonblock}
use artorias.EpollServer.{
  Infd, unwritten, minus_one, holds, Served, served, read_unwritten, no_fuel, and_then,
  after_accept, accept_loop, after_read, read_loop, serve_input, after_write, handle_event,
  handle_events, rounds, epoll_server,
}

abbrev Only : ℕ → List ℕ → Type 0
Only fd [] = Unit
Only fd (x ∷ xs) = (x ≡ fd) × Only fd xs

abbrev pub is_in : ℕ → List ℕ → Bool
is_in x [] = false
is_in x (y ∷ ys) = (x == y) || is_in x ys

abbrev pub AreIn : List ℕ → List Event → Type 0
AreIn xs [] = Unit
AreIn xs (e ∷ es) = (is_in e.fd xs ≡ true) × AreIn xs es

-- `watched` are the descriptors that epoll watches: none at first, one more with `EPOLL_CTL_ADD`, one
-- fewer with `close`; `epoll_wait` reports events of these only.
pub record IsWatch {K : Type 0} (net : Net K) (watched : K → List ℕ) : Type 0 where
  pub create_none : (k : K) → watched (net.epoll_create k).1 ≡ []
  pub get_flags_keeps : (k : K) (fd : ℕ) → watched (net.get_flags k fd).1 ≡ watched k
  pub set_flags_keeps : (k : K) (fd flags : ℕ) → watched (net.set_flags k fd flags).1 ≡ watched k
  pub add_adds :
      (k : K) (epfd : Option ℕ) (fd events : ℕ)
      → watched (net.epoll_add k epfd fd events) ≡ fd ∷ watched k
  pub close_removes : (k : K) (fd : ℕ) → watched (net.close k fd) ≡ remove fd (watched k)
  pub wait_keeps : (k : K) (epfd : Option ℕ) → watched (net.epoll_wait k epfd).1 ≡ watched k
  pub wait_reports : (k : K) (epfd : Option ℕ) → AreIn (watched k) (net.epoll_wait k epfd).0

-- Where a part of the server ends and `infd` has not been written, epoll watches the listening
-- descriptor only; and `infd` has not been read.
abbrev pub IsSafe : {K : Type 0} → (K → List ℕ) → ℕ → Served K → Type 0
IsSafe watched fd (served unwritten k) = Only fd (watched k)
IsSafe watched fd (served minus_one k) = Unit
IsSafe watched fd (served (holds x) k) = Unit
IsSafe watched fd read_unwritten = ⊥
IsSafe watched fd no_fuel = Unit

Only-remove : (fd y : ℕ) (xs : List ℕ) → Only fd xs → Only fd (remove y xs)
Only-remove fd y [] h = tt
Only-remove fd y (x ∷ xs) (e, h) = elim (Bool-cases (y == x)) [
  | inl here ↦ rw here h
  | inr there ↦ rw there (e, Only-remove fd y xs h)
]

is_in-Only : (fd x : ℕ) (xs : List ℕ) → Only fd xs → is_in x xs ≡ true → x ≡ fd
is_in-Only fd x [] h e = absurd cc
is_in-Only fd x (y ∷ ys) (same, h) e = elim (Bool-cases (x == y)) [
  | inl here ↦ ground arith
  | inr there ↦ let e' : is_in x ys ≡ true = rw there at e in is_in-Only fd x ys h e'
]

abbrev AreOn : ℕ → List Event → Type 0
AreOn fd [] = Unit
AreOn fd (e ∷ es) = (e.fd ≡ fd) × AreOn fd es

AreIn-AreOn : (fd : ℕ) (xs : List ℕ) (es : List Event) → Only fd xs → AreIn xs es → AreOn fd es
AreIn-AreOn fd xs [] only h = tt
AreIn-AreOn fd xs (e ∷ es) only (here, h) =
    (is_in-Only fd e.fd xs only here, AreIn-AreOn fd xs es only h)

module _ {K : Type 0} (net : Net K) (kernel : Kernel K) (watched : K → List ℕ)
    (watch : IsWatch net watched) (fd fuel : ℕ) (epfd : Option ℕ) where
  -- The variable has been written.
  abbrev IsWritten : Served K → Type 0
  IsWritten (served unwritten k) = ⊥
  IsWritten (served minus_one k) = Unit
  IsWritten (served (holds x) k) = Unit
  IsWritten read_unwritten = ⊥
  IsWritten no_fuel = Unit

  IsWritten-IsSafe : (r : Served K) → IsWritten r → IsSafe watched fd r
  IsWritten-IsSafe (served unwritten k) h = absurd h
  IsWritten-IsSafe (served minus_one k) h = tt
  IsWritten-IsSafe (served (holds x) k) h = tt
  IsWritten-IsSafe read_unwritten h = h
  IsWritten-IsSafe no_fuel h = tt

  after_accept-IsWritten :
      (again : K → Served K) (r : Accepted × K)
      → ((k : K) → IsWritten (again k))
      → IsWritten (after_accept net kernel epfd fd fuel again r)
  after_accept-IsWritten again (accept_error e, k) f = tt
  after_accept-IsWritten again (accepted x, k) f = f _

  accept_loop-IsWritten :
      (left : ℕ) (k : K) → IsWritten (accept_loop net kernel epfd fd fuel left k)
  unfolding accept_loop
  accept_loop-IsWritten zero k = tt
  accept_loop-IsWritten (suc left) k =
      after_accept-IsWritten _ (new_accept_fd net fd k) (accept_loop-IsWritten left)

  after_read-IsWritten :
      (again : K → Served K) (x : ℕ) (r : Got × K)
      → ((k : K) → IsWritten (again k))
      → IsWritten (after_read net kernel epfd fd fuel again x r)
  after_read-IsWritten again x (read_error e, k) f = elim (Bool-cases (e == eagain)) [
    | inl wait ↦ rw wait tt
    | inr bad ↦ rw bad tt
  ]
  after_read-IsWritten again x (got [], k) f = tt
  after_read-IsWritten again x (got (y ∷ ys), k) f = f _

  read_loop-IsWritten :
      (left x : ℕ) (k : K) → IsWritten (read_loop net kernel epfd fd fuel left x k)
  unfolding read_loop
  read_loop-IsWritten zero x k = tt
  read_loop-IsWritten (suc left) x k =
      after_read-IsWritten _ x (kernel.read k x 1) (read_loop-IsWritten left x)

  after_write-IsWritten :
      (x : ℕ) (r : Option (ℤ × K)) → IsWritten (after_write net kernel epfd fd fuel x r)
  after_write-IsWritten x none = tt
  after_write-IsWritten x (some (negsuc m, k)) = tt
  after_write-IsWritten x (some (pos zero, k)) = tt
  after_write-IsWritten x (some (pos (suc n), k)) = tt

  serve_input-IsWritten :
      (x : ℕ) (infd : Infd) (k : K)
      → IsWritten (served infd k)
      → IsWritten (serve_input net kernel epfd fd fuel x infd k)
  serve_input-IsWritten x unwritten k h = h
  serve_input-IsWritten x minus_one k h = read_loop-IsWritten fuel x _
  serve_input-IsWritten x (holds y) k h = read_loop-IsWritten fuel x _

  closed-IsWritten :
      (x : ℕ) (infd : Infd) (k : K)
      → IsWritten (served infd k)
      → IsWritten (served infd (net.close k x))
  closed-IsWritten x unwritten k h = h
  closed-IsWritten x minus_one k h = tt
  closed-IsWritten x (holds y) k h = tt

  handle_event-IsWritten :
      (e : Event) (infd : Infd) (k : K)
      → IsWritten (served infd k)
      → IsWritten (handle_event net kernel epfd fd fuel e infd k)
  unfolding handle_event
  handle_event-IsWritten e infd k h = elim (Bool-cases (e.err || e.hup || not (e.into || e.out))) [
    | inl bad ↦ rw bad (closed-IsWritten e.fd infd k h)
    | inr good ↦ elim (Bool-cases (e.fd == fd)) [
      | inl here ↦ rw (good, here) (accept_loop-IsWritten fuel k)
      | inr there ↦ elim (Bool-cases e.into) [
        | inl into ↦
            let good' : (e.err || e.hup || not (true || e.out)) ≡ false = rw into at good in
            rw (into, good', there) (serve_input-IsWritten e.fd infd k h)
        | inr out ↦
            let good' : (e.err || e.hup || not (false || e.out)) ≡ false = rw out at good in
            rw (out, good', there) (after_write-IsWritten e.fd _)
      ]
    ]
  ]

  and_then-IsWritten :
      (r : Served K) (next : Infd → K → Served K)
      → IsWritten r
      → ((infd : Infd) (k : K) → IsWritten (served infd k) → IsWritten (next infd k))
      → IsWritten (and_then r next)
  and_then-IsWritten (served infd k) next h f = f infd k h
  and_then-IsWritten read_unwritten next h f = h
  and_then-IsWritten no_fuel next h f = tt

  handle_events-IsWritten :
      (es : List Event) (infd : Infd) (k : K)
      → IsWritten (served infd k)
      → IsWritten (handle_events net kernel epfd fd fuel es infd k)
  unfolding handle_events
  handle_events-IsWritten [] infd k h = h
  handle_events-IsWritten (e ∷ es) infd k h =
      and_then-IsWritten _ _ (handle_event-IsWritten e infd k h) (handle_events-IsWritten es)

  -- An event of the listening descriptor.
  listening-IsSafe :
      (e : Event) (k : K)
      → e.fd ≡ fd
      → Only fd (watched k)
      → IsSafe watched fd (handle_event net kernel epfd fd fuel e unwritten k)
  unfolding handle_event
  listening-IsSafe e k here only = elim (Bool-cases (e.err || e.hup || not (e.into || e.out))) [
    | inl bad ↦
        rw bad (
          subst (Only fd) (sym (watch.close_removes k e.fd)) (Only-remove fd e.fd (watched k) only))
    | inr good ↦
        let same : (e.fd == fd) ≡ true = ground arith in
        rw (good, same) (IsWritten-IsSafe _ (accept_loop-IsWritten fuel k))
  ]

  and_then-IsSafe :
      (r : Served K) (next : Infd → K → Served K)
      → IsSafe watched fd r
      → ((infd : Infd) (k : K)
          → IsSafe watched fd (served infd k)
          → IsSafe watched fd (next infd k))
      → IsSafe watched fd (and_then r next)
  and_then-IsSafe (served infd k) next h f = f infd k h
  and_then-IsSafe read_unwritten next h f = h
  and_then-IsSafe no_fuel next h f = tt

  listening_all-IsSafe :
      (es : List Event) (infd : Infd) (k : K)
      → AreOn fd es
      → IsSafe watched fd (served infd k)
      → IsSafe watched fd (handle_events net kernel epfd fd fuel es infd k)
  unfolding handle_events
  listening_all-IsSafe es minus_one k on h =
      IsWritten-IsSafe _ (handle_events-IsWritten es minus_one k tt)
  listening_all-IsSafe es (holds x) k on h =
      IsWritten-IsSafe _ (handle_events-IsWritten es (holds x) k tt)
  listening_all-IsSafe [] unwritten k on h = h
  listening_all-IsSafe (e ∷ es) unwritten k (here, on) h =
      and_then-IsSafe _ _ (listening-IsSafe e k here h)
        (λ infd k'. listening_all-IsSafe es infd k' on)

  round-IsSafe :
      (infd : Infd) (k : K)
      → IsSafe watched fd (served infd k)
      → IsSafe watched fd (
          handle_events net kernel epfd fd fuel
            (net.epoll_wait k epfd).0
            infd
            (net.epoll_wait k epfd).1)
  round-IsSafe unwritten k h =
      listening_all-IsSafe _ unwritten _
        (AreIn-AreOn fd (watched k) _ h (watch.wait_reports k epfd))
        (subst (Only fd) (sym (watch.wait_keeps k epfd)) h)
  round-IsSafe minus_one k h = IsWritten-IsSafe _ (handle_events-IsWritten _ minus_one _ tt)
  round-IsSafe (holds x) k h = IsWritten-IsSafe _ (handle_events-IsWritten _ (holds x) _ tt)

  rounds-IsSafe :
      (m : ℕ) (infd : Infd) (k : K)
      → IsSafe watched fd (served infd k)
      → IsSafe watched fd (rounds net kernel epfd fd fuel m infd k)
  unfolding rounds
  rounds-IsSafe zero infd k h = h
  rounds-IsSafe (suc m) infd k h = and_then-IsSafe _ _ (round-IsSafe infd k h) (rounds-IsSafe m)

set_nonblock_flag-watched :
    {K : Type 0} (net : Net K) (watched : K → List ℕ) (watch : IsWatch net watched) (fd : ℕ)
    (r : Option ℕ × K)
    → watched (set_nonblock_flag net fd r).1 ≡ watched r.1
set_nonblock_flag-watched net watched watch fd (none, k) = refl
set_nonblock_flag-watched net watched watch fd (some flags, k) =
    watch.set_flags_keeps k fd (bit_or flags o_nonblock)

-- Let epoll watch nothing at first, one descriptor more after `EPOLL_CTL_ADD` and one fewer after
-- `close`, and let `epoll_wait` report events of these only. Whatever `accept`, `read` and `send`
-- give, and for any fuel and number of rounds, `epoll_server` never reads its variable `infd`
-- before it is written; and where it ends with the variable unwritten, epoll watches the listening
-- descriptor only.
pub epoll_server-IsSafe :
    {K : Type 0} (net : Net K) (kernel : Kernel K) (watched : K → List ℕ) (fd fuel m : ℕ) (k : K)
    → IsWatch net watched
    → IsSafe watched fd (epoll_server net kernel fd fuel m k)
unfolding epoll_server set_non_block
epoll_server-IsSafe net kernel watched fd fuel m k watch =
    let (epfd, k1) = net.epoll_create k in
    let (r, k2) = set_non_block net fd k1 in
    let added : watched (net.epoll_add k2 epfd fd (epollin + epollet)) ≡ fd ∷ [] =
      watch.add_adds k2 epfd fd (epollin + epollet)
      ∙ ap (fd ∷◌) (
          set_nonblock_flag-watched net watched watch fd (net.get_flags k1 fd)
          ∙ watch.get_flags_keeps k1 fd
          ∙ watch.create_none k) in
    rounds-IsSafe net kernel watched watch fd fuel epfd m unwritten
      (net.epoll_add k2 epfd fd (epollin + epollet)) (subst (Only fd) (sym added) (refl, tt))
