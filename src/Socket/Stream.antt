-- ===== src/Socket/Stream.antt =====
-- c/src/lm_socket.c: what a stream takes from the calls of `send`, over the yields of one `send`.
use artorias.Prelude.{
  ℕ, zero, suc, ◌+◌, ◌-◌, ◌≤◌, ◌<◌, ◌≡◌, refl, sym, ap, ◌∙◌, inl, inr, true, Option, none, some,
  List, [], ◌∷◌, ◌++◌, ◌==◌, arith, Bool-cases, length, take, drop, length-drop, take_add, take_all,
  append_assoc, append_nil,
}
use artorias.RbTree.Store.{Ptr}
use artorias.World.{Res}
use artorias.Kernel.{Put, put, send_error, Kernel, IsStream, eagain}
use artorias.Socket.{
  StackValue, socket, SendCtx, Reply, returns, raises, yields_for_io, bad_access, no_fuel, lua_ok,
  yielded, after_send, send_loop, send_on, k_socket_send,
}

-- With `base` taken before: the results count the bytes of `buf` that have been taken since, all of
-- them if there is no error; so does the context of a yield, which is for output on `res`.
abbrev pub IsCounted :
    {K : Type 0} → List ℕ → List ℕ → (K → List ℕ) → Ptr → Reply (ℕ × Option ℕ) SendCtx × K → Type 0
IsCounted base buf accepted res (returns (n, none), k) =
    (n ≡ length buf) × (accepted k ≡ base ++ buf)
IsCounted base buf accepted res (returns (n, some e), k) =
    (n ≤ length buf) × (accepted k ≡ base ++ take n buf)
IsCounted base buf accepted res (raises, k) = ⊥
IsCounted base buf accepted res (yields_for_io on out secs ctx, k) =
    (on ≡ res)
    × (out ≡ true)
    × (ctx.buf ≡ buf)
    × (ctx.idx ≤ length buf)
    × (accepted k ≡ base ++ take ctx.idx buf)
IsCounted base buf accepted res (bad_access, k) = ⊥
IsCounted base buf accepted res (no_fuel, k) = ⊥

-- The same, for results that come after a first yield: there is no further yield, and an error comes
-- after some first part of `buf` has been taken.
abbrev pub IsResumed :
    {K : Type 0} → List ℕ → List ℕ → (K → List ℕ) → Reply (ℕ × Option ℕ) SendCtx × K → Type 0
IsResumed base buf accepted (returns (n, none), k) = (n ≡ length buf) × (accepted k ≡ base ++ buf)
IsResumed base buf accepted (returns (n, some e), k) =
    (n ≤ length buf) × (accepted k ≡ base ++ take n buf)
IsResumed base buf accepted (raises, k) =
    (n : ℕ) × (n ≤ length buf) × (accepted k ≡ base ++ take n buf)
IsResumed base buf accepted (yields_for_io on out secs ctx, k) = ⊥
IsResumed base buf accepted (bad_access, k) = ⊥
IsResumed base buf accepted (no_fuel, k) = ⊥

abbrev pub HasEnded : {A C : Type 0} → Reply A C → Type 0
HasEnded no_fuel = ⊥
HasEnded (returns a) = Unit
HasEnded raises = Unit
HasEnded (yields_for_io res out secs ctx) = Unit
HasEnded bad_access = Unit

-- A `send` on the socket at `sock` that is resumed after each yield, with these on the stack above the
-- socket.
abbrev pub converse :
    {K : Type 0}
    → Kernel K
    → (Ptr → Option Res)
    → ℕ
    → Ptr
    → List (List StackValue)
    → Reply (ℕ × Option ℕ) SendCtx × K
    → Reply (ℕ × Option ℕ) SendCtx × K
converse kernel ress fuel sock [] c = c
converse kernel ress fuel sock (s ∷ ss) (yields_for_io on out secs ctx, k) =
    converse kernel ress fuel sock ss
      (k_socket_send kernel ress fuel (yielded (socket sock ∷ s)) ctx k)
converse kernel ress fuel sock (s ∷ ss) (returns a, k) = (returns a, k)
converse kernel ress fuel sock (s ∷ ss) (raises, k) = (raises, k)
converse kernel ress fuel sock (s ∷ ss) (bad_access, k) = (bad_access, k)
converse kernel ress fuel sock (s ∷ ss) (no_fuel, k) = (no_fuel, k)

module _ {K : Type 0} (kernel : Kernel K) (accepted : K → ℕ → List ℕ)
    (stream : IsStream kernel accepted) where
  -- One more reply of `send`.
  pub took :
      (fd : ℕ) (base buf : List ℕ) (i n : ℕ) (k k' : K)
      → kernel.send k fd (drop i buf) ≡ (put n, k')
      → i ≤ length buf
      → accepted k fd ≡ base ++ take i buf
      → (i + n ≤ length buf) × (accepted k' fd ≡ base ++ take (i + n) buf)
  took fd base buf i n k k' e le so_far = (
    omega (arith, stream.bounded k fd n (drop i buf) k' e, length-drop i buf),
    stream.taken k fd n (drop i buf) k' e
        ∙ ap (λ xs. xs ++ take n (drop i buf)) so_far
        ∙ append_assoc base (take i buf) (take n (drop i buf))
        ∙ ap (λ xs. base ++ xs) (sym (take_add i n buf)),
  )

  after_send-IsCounted :
      (again : SendCtx → K → Reply (ℕ × Option ℕ) SendCtx × K) (fd : ℕ) (res : Ptr) (base : List ℕ)
      (ctx : SendCtx) (k : K) (r : Put × K)
      → kernel.send k fd (drop ctx.idx ctx.buf) ≡ r
      → ctx.idx ≤ length ctx.buf
      → accepted k fd ≡ base ++ take ctx.idx ctx.buf
      → ((i : ℕ) (k' : K)
          → ctx.idx < i
          → i ≤ length ctx.buf
          → accepted k' fd ≡ base ++ take i ctx.buf
          → IsCounted base ctx.buf (λ k. accepted k fd) res (again (record ctx { idx = i }) k'))
      → IsCounted base ctx.buf (λ k. accepted k fd) res (after_send again res ctx r)
  after_send-IsCounted again fd res base ctx k (put n, k') e le so_far next =
      let (le', so_far') = took fd base ctx.buf ctx.idx n k k' e le so_far in
      elim (Bool-cases (n == length ctx.buf - ctx.idx)) [
        | inl all ↦
            let whole : ctx.idx + n ≡ length ctx.buf = ground arith in
            rw all (
              refl,
              so_far'
                  ∙ ap (λ m. base ++ take m ctx.buf) whole
                  ∙ ap (λ xs. base ++ xs) (take_all ctx.buf),
            )
        | inr part ↦
            let left : 0 < length (drop ctx.idx ctx.buf) =
              ground (arith, length-drop ctx.idx ctx.buf) in
            let more : 0 < n = stream.positive k fd n (drop ctx.idx ctx.buf) k' e left in
            rw part (next (ctx.idx + n) k' (omega arith) le' so_far')
      ]
  after_send-IsCounted again fd res base ctx k (send_error err, k') e le so_far next =
      let same : accepted k' fd ≡ base ++ take ctx.idx ctx.buf =
        stream.refused k fd err (drop ctx.idx ctx.buf) k' e ∙ so_far in
      elim (Bool-cases (err == eagain)) [
        | inl waits ↦ rw waits (refl, refl, refl, le, same)
        | inr fails ↦ rw fails (le, same)
      ]

  send_loop-IsCounted :
      (ress : Ptr → Option Res) (fuel fd : ℕ) (res : Ptr) (base : List ℕ) (ctx : SendCtx) (k : K)
      → length ctx.buf < fuel + ctx.idx
      → ctx.idx ≤ length ctx.buf
      → accepted k fd ≡ base ++ take ctx.idx ctx.buf
      → IsCounted base ctx.buf (λ k. accepted k fd) res (send_loop kernel ress fuel fd res ctx k)
  unfolding send_loop
  send_loop-IsCounted ress zero fd res base ctx k enough le so_far = absurd (omega arith)
  send_loop-IsCounted ress (suc fuel) fd res base ctx k enough le so_far =
      after_send-IsCounted (send_loop kernel ress fuel fd res) fd res base ctx k _ refl le so_far
        (λ i k' lt le' so_far'.
          send_loop-IsCounted ress fuel fd res base (record ctx { idx = i }) k' (omega arith) le'
            so_far')

  after_send-HasEnded :
      (again : SendCtx → K → Reply (ℕ × Option ℕ) SendCtx × K) (fd : ℕ) (res : Ptr) (ctx : SendCtx)
      (k : K) (r : Put × K)
      → kernel.send k fd (drop ctx.idx ctx.buf) ≡ r
      → ((i : ℕ) (k' : K)
          → ctx.idx < i
          → i ≤ length ctx.buf
          → HasEnded (again (record ctx { idx = i }) k').0)
      → HasEnded (after_send again res ctx r).0
  after_send-HasEnded again fd res ctx k (put n, k') e next =
      elim (Bool-cases (n == length ctx.buf - ctx.idx)) [
        | inl all ↦ rw all tt
        | inr part ↦
            let short : n ≤ length (drop ctx.idx ctx.buf) =
              stream.bounded k fd n (drop ctx.idx ctx.buf) k' e in
            let left : 0 < length (drop ctx.idx ctx.buf) =
              ground (arith, length-drop ctx.idx ctx.buf) in
            let more : 0 < n = stream.positive k fd n (drop ctx.idx ctx.buf) k' e left in
            rw part
              (next (ctx.idx + n) k' (omega arith) (omega (arith, length-drop ctx.idx ctx.buf)))
      ]
  after_send-HasEnded again fd res ctx k (send_error err, k') e next =
      elim (Bool-cases (err == eagain)) [ inl waits ↦ rw waits tt | inr fails ↦ rw fails tt ]

  -- With `send` as documented, the loop of `k_socket_send` comes back with more fuel than there are
  -- bytes left to send, since each reply after which it goes on has taken a byte at least.
  pub send_loop-HasEnded :
      (ress : Ptr → Option Res) (fuel fd : ℕ) (res : Ptr) (ctx : SendCtx) (k : K)
      → length ctx.buf < fuel + ctx.idx
      → ctx.idx ≤ length ctx.buf
      → HasEnded (send_loop kernel ress fuel fd res ctx k).0
  unfolding send_loop
  send_loop-HasEnded ress zero fd res ctx k enough le = absurd (omega arith)
  send_loop-HasEnded ress (suc fuel) fd res ctx k enough le =
      after_send-HasEnded (send_loop kernel ress fuel fd res) fd res ctx k _ refl (λ i k' lt le'.
        send_loop-HasEnded ress fuel fd res (record ctx { idx = i }) k' (omega arith) le')

  -- An error at the first resumption, since the index 1 holds the socket.
  converse-IsResumed :
      (ress : Ptr → Option Res) (fuel fd : ℕ) (sock res : Ptr) (base buf : List ℕ)
      (s : List StackValue) (ss : List (List StackValue)) (c : Reply (ℕ × Option ℕ) SendCtx × K)
      → IsCounted base buf (λ k. accepted k fd) res c
      → IsResumed base buf (λ k. accepted k fd) (converse kernel ress fuel sock (s ∷ ss) c)
  unfolding k_socket_send
  converse-IsResumed ress fuel fd sock res base buf s ss (returns (n, none), k) h = h
  converse-IsResumed ress fuel fd sock res base buf s ss (returns (n, some e), k) h = h
  converse-IsResumed ress fuel fd sock res base buf s ss (raises, k) h = absurd h
  converse-IsResumed ress fuel fd sock res base buf s ss (bad_access, k) h = h
  converse-IsResumed ress fuel fd sock res base buf s ss (no_fuel, k) h = h
  converse-IsResumed ress fuel fd sock res base buf s [] (yields_for_io on out secs ctx, k)
        (same, o, whole, le, so_far) =
      (ctx.idx, le, so_far)
  converse-IsResumed ress fuel fd sock res base buf s (s' ∷ ss) (yields_for_io on out secs ctx, k)
        (same, o, whole, le, so_far) =
      (ctx.idx, le, so_far)

  -- With `send` as documented, for a resource in memory and more fuel than bytes in the buffer,
  -- take a `send` of the buffer: a first call of `k_socket_send` with `LUA_OK`, and then one
  -- resumption or more, which find the userdata of the socket at the bottom of the stack and any
  -- values above it. The first call neither raises an error nor reads a bad address: a result
  -- without an error is the length of the buffer, and the stream has taken exactly the whole
  -- buffer; a result with an error is the number of bytes that the stream has taken, which are the
  -- first ones of the buffer; and so is the count that a yield keeps. After the resumptions there
  -- is either such a result or an error of Lua, with some first part of the buffer taken, and no
  -- further yield.
  pub k_socket_send-IsCounted :
      (ress : Ptr → Option Res) (fuel : ℕ) (sock res : Ptr) (r : Res) (s : List StackValue)
      (ss : List (List StackValue)) (buf : List ℕ) (k : K)
      → ress res ≡ some r
      → length buf < fuel
      → let first =
          k_socket_send kernel ress fuel lua_ok (record { res = res; buf = buf; idx = 0 }) k in
        let base = accepted k r.fd in
        IsCounted base buf (λ k. accepted k r.fd) res first
        × IsResumed base buf (λ k. accepted k r.fd) (converse kernel ress fuel sock (s ∷ ss) first)
  unfolding k_socket_send
  k_socket_send-IsCounted ress fuel sock res r s ss buf k here enough =
      let start : SendCtx = record { res = res; buf = buf; idx = 0 } in
      let h : IsCounted (accepted k r.fd) buf (λ k. accepted k r.fd) res
          (send_on kernel ress fuel res (ress res) start k) =
        rw here (
          send_loop-IsCounted ress fuel r.fd res (accepted k r.fd) start k (omega arith)
            (omega arith) (sym (append_nil (accepted k r.fd)))) in
      (h, converse-IsResumed ress fuel r.fd sock res (accepted k r.fd) buf s ss _ h)
