-- ===== src/Server/Client.antt =====
-- c/src/server.c: what the loops have read and written when they return.
use artorias.Prelude.{
  ℕ, zero, suc, ◌+◌, ◌^◌, ◌≤◌, ◌<◌, ◌≡◌, refl, sym, ap, ◌∙◌, true, inl, inr, Option, none, some,
  List, [], ◌∷◌, ◌++◌, ◌==◌, ltb, if◌then◌else◌, arith, Bool-cases, length, take, drop, append_nil,
  length-append,
}
use artorias.Worker.{ℤ, pos, negsuc}
use artorias.Kernel.{Got, got, read_error, Put, put, send_error, Kernel, IsStream, eagain}
use artorias.Bytes.Read.{flat}
use artorias.Socket.Stream.{took}
use artorias.Server.{
  after_write, read_from, simple_read_from_client, write_from, simple_write_to_client,
}

-- The result of a write of `buf` after `base`: how many bytes have been taken, or -1 when `send`
-- fails, after some of them.
abbrev pub IsWritten : {K : Type 0} → List ℕ → List ℕ → (K → List ℕ) → Option (ℤ × K) → Type 0
IsWritten base buf accepted none = ⊥
IsWritten base buf accepted (some (pos n, k)) = (n ≤ length buf) × (accepted k ≡ base ++ take n buf)
IsWritten base buf accepted (some (negsuc m, k)) =
    (m ≡ 0) × ((n : ℕ) × (n ≤ length buf) × (accepted k ≡ base ++ take n buf))

module _ {K : Type 0} (kernel : Kernel K) (accepted : K → ℕ → List ℕ)
    (stream : IsStream kernel accepted) (fd : ℕ) where
  after_write-IsWritten :
      (again : ℕ → K → Option (ℤ × K)) (base buf : List ℕ) (i : ℕ) (k : K) (r : Put × K)
      → kernel.send k fd (drop i buf) ≡ r
      → i ≤ length buf
      → accepted k fd ≡ base ++ take i buf
      → length buf < 2 ^ 31
      → ((j : ℕ) (k' : K)
          → i < j
          → j ≤ length buf
          → accepted k' fd ≡ base ++ take j buf
          → IsWritten base buf (λ k. accepted k fd) (again j k'))
      → IsWritten base buf (λ k. accepted k fd) (after_write again i r)
  after_write-IsWritten again base buf i k (put zero, k') e le so_far small next =
      let (le', so_far') = took kernel accepted stream fd base buf i 0 k k' e le so_far in
      let same : i + 0 ≡ i = omega arith in (le, so_far' ∙ ap (λ j. base ++ take j buf) same)
  after_write-IsWritten again base buf i k (put (suc n), k') e le so_far small next =
      let (le', so_far') = took kernel accepted stream fd base buf i (suc n) k k' e le so_far in
      let fits : ltb (i + suc n) (2 ^ 31) ≡ true = ground arith in
      rw fits (next (i + suc n) k' (omega arith) le' so_far')
  after_write-IsWritten again base buf i k (send_error err, k') e le so_far small next =
      let same : accepted k' fd ≡ base ++ take i buf =
        stream.refused k fd err (drop i buf) k' e ∙ so_far in
      elim (Bool-cases (err == eagain)) [
        | inl waits ↦ rw waits (le, same)
        | inr fails ↦ rw fails (refl, (i, le, same))
      ]

  write_from-IsWritten :
      (fuel : ℕ) (base buf : List ℕ) (i : ℕ) (k : K)
      → i ≤ length buf
      → length buf < fuel + i
      → length buf < 2 ^ 31
      → accepted k fd ≡ base ++ take i buf
      → IsWritten base buf (λ k. accepted k fd) (write_from kernel fd fuel buf i k)
  unfolding write_from
  write_from-IsWritten zero base buf i k le enough small so_far = absurd (omega arith)
  write_from-IsWritten (suc fuel) base buf i k le enough small so_far =
      elim (Bool-cases (ltb i (length buf))) [
        | inl more ↦ rw more (
            after_write-IsWritten (write_from kernel fd fuel buf) base buf i k _ refl le so_far
              small
              (λ j k' lt le' so_far'.
                write_from-IsWritten fuel base buf j k' le' (omega arith) small so_far'))
        | inr whole ↦
            let all : i ≡ length buf = ground arith in
            rw whole (omega arith, so_far ∙ ap (λ j. base ++ take j buf) all)
      ]

  -- With `send` as documented, for a buffer of less than 2^31 bytes and more fuel than these,
  -- `simple_write_to_client` returns: either a count, and the stream has taken just that many bytes
  -- from the front of the buffer, or -1, and it has taken some first part of the buffer.
  pub simple_write_to_client-IsWritten :
      (fuel : ℕ) (buf : List ℕ) (k : K)
      → length buf < fuel
      → length buf < 2 ^ 31
      → IsWritten
          (accepted k fd)
          buf
          (λ k. accepted k fd)
          (simple_write_to_client kernel fd fuel buf k)
  unfolding simple_write_to_client
  simple_write_to_client-IsWritten fuel buf k enough small =
      write_from-IsWritten fuel (accepted k fd) buf 0 k (omega arith) (omega arith) small
        (sym (append_nil (accepted k fd)))

-- How reads end: at the end of the file, or with an error.
abbrev pub last : Option ℕ → Got
last none = got []
last (some e) = read_error e

-- What is returned after `n` bytes: 0 at the end of the file, the count at `EAGAIN`, or -1.
abbrev read_count : Option ℕ → ℕ → ℤ
read_count none n = pos 0
read_count (some e) n = if e == eagain then pos n else negsuc 0

module _ {K : Type 0} (kernel : Kernel K) (fd : ℕ) where
  -- `read` gives these chunks, none of them empty, and then the end.
  abbrev ReadsTo : K → List (List ℕ) → Option ℕ → K → Type 0
  ReadsTo k [] end k' = kernel.read k fd 256 ≡ (last end, k')
  ReadsTo k ([] ∷ xss) end k' = ⊥
  ReadsTo k ((x ∷ xs) ∷ xss) end k' =
      (k1 : K) × (kernel.read k fd 256 ≡ (got (x ∷ xs), k1)) × ReadsTo k1 xss end k'

  read_from-count :
      (fuel n : ℕ) (xss : List (List ℕ)) (end : Option ℕ) (k k' : K)
      → ReadsTo k xss end k'
      → length xss < fuel
      → n + length (flat xss) < 2 ^ 31
      → read_from kernel fd fuel n k ≡ some (read_count end (n + length (flat xss)), k')
  unfolding read_from
  read_from-count zero n xss end k k' reads enough small = absurd (omega arith)
  read_from-count (suc fuel) n [] none k k' reads enough small = rw reads refl
  read_from-count (suc fuel) n [] (some e) k k' reads enough small =
      let sum : n + 0 ≡ n = omega arith in rw (reads, sum) refl
  read_from-count (suc fuel) n ([] ∷ xss) end k k' reads enough small = absurd reads
  read_from-count (suc fuel) n ((x ∷ xs) ∷ xss) end k k' (k1, at, reads) enough small =
      let sum : (n + length (x ∷ xs)) + length (flat xss) ≡ n + length ((x ∷ xs) ++ flat xss) =
        omega (arith, length-append (x ∷ xs) (flat xss)) in
      let fits : ltb (n + length (x ∷ xs)) (2 ^ 31) ≡ true = ground arith in
      rw (at, fits)
        (read_from-count fuel (n + length (x ∷ xs)) xss end k1 k' reads (omega arith) (omega arith)
          ∙ ap (λ m. some (read_count end m, k')) sum)

  -- When `read` gives chunks that are not empty, less than 2^31 bytes together, and then the end of
  -- the file or an error, `simple_read_from_client` returns with more fuel than there are chunks: 0
  -- at the end of the file, also after bytes that have been read, the number of all bytes read at
  -- `EAGAIN`, and -1 at another error.
  pub simple_read_from_client-count :
      (fuel : ℕ) (xss : List (List ℕ)) (end : Option ℕ) (k k' : K)
      → ReadsTo k xss end k'
      → length xss < fuel
      → length (flat xss) < 2 ^ 31
      → simple_read_from_client kernel fd fuel k ≡ some (read_count end (length (flat xss)), k')
  unfolding simple_read_from_client
  simple_read_from_client-count fuel xss end k k' reads enough small =
      let sum : 0 + length (flat xss) ≡ length (flat xss) = omega arith in
      read_from-count fuel 0 xss end k k' reads enough (omega arith)
      ∙ ap (λ m. some (read_count end m, k')) sum
