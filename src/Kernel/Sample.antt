-- ===== src/Kernel/Sample.antt =====
-- A kernel to run the code on: a socket buffer that takes three bytes at a time and is full now and
-- then.
use artorias.Prelude.{
  ℕ, zero, suc, ◌≤◌, ◌<◌, ◌≡◌, ap, sym, ◌∙◌, List, [], ◌∷◌, ◌++◌, arith, min, length, take,
}
use artorias.Kernel.{got, Put, put, send_error, Kernel, IsStream, eagain}

-- What has been taken, and how many more calls succeed before the buffer is full.
abbrev State : Type 0
State = List ℕ × ℕ

abbrev send_some : State → List ℕ → Put × State
send_some (xs, zero) ys = (send_error eagain, (xs, 2))
send_some (xs, suc n) ys = (put (min 3 (length ys)), (xs ++ take (min 3 (length ys)) ys, n))

abbrev pub kernel : Kernel State
kernel = record { read = λ k fd n. (got [], k); send = λ k fd ys. send_some k ys }

abbrev pub accepted : State → ℕ → List ℕ
accepted (xs, n) fd = xs

abbrev count_of : Put → ℕ
count_of (put n) = n
count_of (send_error e) = 0

pub stream : IsStream kernel accepted
stream = record {
  bounded = λ k fd n ys k' e. bounded k n ys k' e;
  positive = λ k fd n ys k' e h. positive k n ys k' e h;
  taken = λ k fd n ys k' e. taken k n ys k' e;
  refused = λ k fd e ys k' h. refused k e ys k' h;
}
  where
    bounded :
        (k : State) (n : ℕ) (ys : List ℕ) (k' : State)
        → send_some k ys ≡ (put n, k')
        → n ≤ length ys
    bounded (xs, zero) n ys k' e = cc
    bounded (xs, suc m) n ys k' e =
        let same : min 3 (length ys) ≡ n = ap (λ r. count_of r.0) e in omega arith

    positive :
        (k : State) (n : ℕ) (ys : List ℕ) (k' : State)
        → send_some k ys ≡ (put n, k')
        → 0 < length ys
        → 0 < n
    positive (xs, zero) n ys k' e h = cc
    positive (xs, suc m) n ys k' e h =
        let same : min 3 (length ys) ≡ n = ap (λ r. count_of r.0) e in omega arith

    taken :
        (k : State) (n : ℕ) (ys : List ℕ) (k' : State)
        → send_some k ys ≡ (put n, k')
        → k'.0 ≡ k.0 ++ take n ys
    taken (xs, zero) n ys k' e = cc
    taken (xs, suc m) n ys k' e =
        let same : min 3 (length ys) ≡ n = ap (λ r. count_of r.0) e in
        sym (ap (λ r. r.1.0) e) ∙ ap (λ j. xs ++ take j ys) same

    refused :
        (k : State) (err : ℕ) (ys : List ℕ) (k' : State)
        → send_some k ys ≡ (send_error err, k')
        → k'.0 ≡ k.0
    refused (xs, zero) err ys k' e = sym (ap (λ r. r.1.0) e)
    refused (xs, suc m) err ys k' e = cc

abbrev pub message : List ℕ
message = 1 ∷ 2 ∷ 3 ∷ 4 ∷ 5 ∷ []
