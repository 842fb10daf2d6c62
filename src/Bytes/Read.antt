-- ===== src/Bytes/Read.antt =====
-- c/src/bytes.c: `bytes_read_from_fd` up to the end of a file, and on a descriptor that has nothing.
use artorias.Prelude.{
  ℕ, zero, suc, ◌+◌, ◌%◌, ◌^◌, ◌≤◌, ◌<◌, ◌≡◌, true, false, Bool, ◌⊎◌, inl, inr, Bool-cases, refl,
  sym, ap, ◌∙◌, List, [], ◌∷◌, ◌++◌, ◌==◌, arith, length, length-append, append_assoc, append_nil,
}
use artorias.Kernel.{got, read_error, Kernel, eagain}
use artorias.Bytes.{
  Block, Bytes, Filled, filled, null_write, out_of_fuel, add_block, next_size, read_loop,
  bytes_read_from_fd,
}
use artorias.Bytes.Content.{content, AreFilled, room_of, HasContent}

abbrev pub flat : List (List ℕ) → List ℕ
flat [] = []
flat (xs ∷ xss) = xs ++ flat xss

content-append : (bs cs : List Block) → content (bs ++ cs) ≡ content bs ++ content cs
content-append [] cs = refl
content-append (b ∷ bs) cs =
    ap (λ xs. b.d ++ xs) (content-append bs cs) ∙ sym (append_assoc b.d (content bs) (content cs))

AreFilled-append : (bs cs : List Block) → AreFilled bs → AreFilled cs → AreFilled (bs ++ cs)
AreFilled-append [] cs h k = k
AreFilled-append (b ∷ bs) cs (u, r, h) k = (u, r, AreFilled-append bs cs h k)

room_of-append : (bs cs : List Block) → room_of (bs ++ cs) ≡ room_of bs + room_of cs
room_of-append [] cs = omega arith
room_of-append (b ∷ bs) cs = let e = room_of-append bs cs in omega arith

-- A block with `xs` at the tail.
add_block-HasContent :
    (ys xs : List ℕ) (bs : Bytes) (rsize : ℕ)
    → HasContent ys bs
    → length xs ≤ rsize
    → length ys + length xs < 2 ^ 64
    → HasContent (ys ++ xs) (add_block bs rsize (length xs) xs)
add_block-HasContent ys xs bs rsize h room small = record {
  holds =
      content-append bs.dl (record { size = rsize; used = length xs; d = xs } ∷ [])
      ∙ ap (λ zs. content bs.dl ++ zs) (append_nil xs)
      ∙ ap (λ zs. zs ++ xs) h.holds;
  filled =
      AreFilled-append bs.dl (record { size = rsize; used = length xs; d = xs } ∷ []) h.filled
        (refl, room, tt);
  counted = omega (arith, h.counted, length-append ys xs);
  sized = omega (
    arith,
    h.sized,
    room_of-append bs.dl (record { size = rsize; used = length xs; d = xs } ∷ []),
  );
  blocks = omega (
    arith,
    h.blocks,
    length-append bs.dl (record { size = rsize; used = length xs; d = xs } ∷ []),
  );
}

module _ {K : Type 0} (kernel : Kernel K) (memory : K → Bytes → ℕ → Bool) (fd : ℕ) where
  -- `read` gives these chunks, none of them empty, for the sizes that the loop asks for, and then the
  -- end of the file.
  abbrev pub Reads : ℕ → K → List (List ℕ) → K → Type 0
  Reads rsize k [] k' = kernel.read k fd rsize ≡ (got [], k')
  Reads rsize k (xs ∷ xss) k' =
      (k1 : K) × (kernel.read k fd rsize ≡ (got xs, k1))
      × (0 < length xs)
      × (length xs ≤ rsize)
      × Reads (next_size rsize) k1 xss k'

  read_loop-HasContent :
      (fuel rsize n : ℕ) (xss : List (List ℕ)) (ys : List ℕ) (bs : Bytes) (k k' : K)
      → Reads rsize k xss k'
      → ((k : K) (b : Bytes) (size : ℕ) → memory k b size ≡ true)
      → HasContent ys bs
      → length ys + length (flat xss) < 2 ^ 64
      → n + length (flat xss) < 2 ^ 64
      → length xss < fuel
      → (bs' : Bytes) × (read_loop kernel memory fd fuel rsize n bs k
          ≡ filled (n + length (flat xss)) bs' k')
        × HasContent (ys ++ flat xss) bs'
  unfolding read_loop
  read_loop-HasContent zero rsize n xss ys bs k k' reads there h small small' enough =
      absurd (omega arith)
  read_loop-HasContent (suc fuel) rsize n [] ys bs k k' reads there h small small' enough =
      let exact : (n + 0) % 2 ^ 64 ≡ n + 0 = omega arith in
      (
        add_block bs rsize 0 [],
        rw (there k bs rsize, reads, exact) refl,
        add_block-HasContent ys [] bs rsize h (omega arith) small,
      )
  read_loop-HasContent (suc fuel) rsize n (xs ∷ xss) ys bs k k' (k1, e, some_bytes, room, reads)
        there h small small' enough =
      let exact : (n + length xs) % 2 ^ 64 ≡ n + length xs =
        omega (arith, length-append xs (flat xss)) in
      let more : (length xs == 0) ≡ false = ground arith in
      let (bs', done, c) =
        read_loop-HasContent fuel (next_size rsize) (n + length xs) xss (ys ++ xs)
          (add_block bs rsize (length xs) xs) k1 k' reads there
          (add_block-HasContent ys xs bs rsize h room (omega (arith, length-append xs (flat xss))))
          (omega (arith, length-append xs (flat xss), length-append ys xs))
          (omega (arith, length-append xs (flat xss))) (omega arith) in
      let sum : n + length xs + length (flat xss) ≡ n + length (xs ++ flat xss) =
        omega (arith, length-append xs (flat xss)) in
      (
        bs',
        rw (there k bs rsize, e, more)
            (ap
                (λ m.
                  read_loop kernel memory fd fuel (next_size rsize) m
                    (add_block bs rsize (length xs) xs) k1)
                exact
              ∙ done
              ∙ ap (λ m. filled m bs' k') sum),
        rw (append_assoc ys xs (flat xss)) at c,
      )

  -- When `read` gives chunks that are not empty and fit the sizes asked for, and then the end of
  -- the file, all bytes together are less than 2^64, and `memp_alloc` has memory,
  -- `bytes_read_from_fd` on a buffer that holds some bytes, with its counts right, returns, with
  -- more fuel than there are chunks, the length of the chunks together, and the buffer then holds
  -- its bytes and those of the chunks in order; `used` is again their number, `size` the room of
  -- the blocks modulo 2^64, and `cnt` the number of blocks modulo 2^32.
  pub bytes_read_from_fd-HasContent :
      (fuel : ℕ) (xss : List (List ℕ)) (ys : List ℕ) (bs : Bytes) (k k' : K)
      → Reads 64 k xss k'
      → ((k : K) (b : Bytes) (size : ℕ) → memory k b size ≡ true)
      → HasContent ys bs
      → length ys + length (flat xss) < 2 ^ 64
      → length xss < fuel
      → (bs' : Bytes) × (bytes_read_from_fd kernel memory fd fuel bs k
          ≡ filled (length (flat xss)) bs' k')
        × HasContent (ys ++ flat xss) bs'
  unfolding bytes_read_from_fd
  bytes_read_from_fd-HasContent fuel xss ys bs k k' reads there h small enough =
      let (bs', e, c) =
        read_loop-HasContent fuel 64 0 xss ys bs k k' reads there h small (omega arith) enough in
      let sum : 0 + length (flat xss) ≡ length (flat xss) = omega arith in (bs', rw sum at e, c)

  -- Out of fuel; or `memp_alloc` had no block, and its NULL has been written through.
  abbrev pub NeverReturns : K → Filled K → Type 0
  NeverReturns k r =
      (r ≡ out_of_fuel)
      ⊎ ((r ≡ null_write) × ((b : Bytes) × ((size : ℕ) × (memory k b size ≡ false))))

  read_loop-none :
      (fuel rsize n : ℕ) (bs : Bytes) (k : K)
      → ((size : ℕ) → kernel.read k fd size ≡ (read_error eagain, k))
      → NeverReturns k (read_loop kernel memory fd fuel rsize n bs k)
  unfolding read_loop
  read_loop-none zero rsize n bs k quiet = inl refl
  read_loop-none (suc fuel) rsize n bs k quiet = elim (Bool-cases (memory k bs rsize)) [
    | inl there ↦ rw (there, quiet rsize) (read_loop-none fuel _ _ _ k quiet)
    | inr full ↦ rw full (inr (refl, (bs, (rsize, full))))
  ]

  -- On a descriptor on which every `read` fails with `EAGAIN`, `bytes_read_from_fd` does not
  -- return: it goes on whatever the fuel, or writes through the NULL of a `memp_alloc` that has no
  -- block.
  pub bytes_read_from_fd-none :
      (fuel : ℕ) (bs : Bytes) (k : K)
      → ((size : ℕ) → kernel.read k fd size ≡ (read_error eagain, k))
      → NeverReturns k (bytes_read_from_fd kernel memory fd fuel bs k)
  unfolding bytes_read_from_fd
  bytes_read_from_fd-none fuel bs k quiet = read_loop-none fuel 64 0 bs k quiet
