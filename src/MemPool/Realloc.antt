-- ===== src/MemPool/Realloc.antt =====
-- c/src/mem_pool.c: `memp_realloc` of a block of a fixed field.
use artorias.Prelude.{
  ℕ, zero, suc, ◌+◌, ◌^◌, ◌≤◌, ◌<◌, ◌≡◌, refl, sym, ap, ◌∙◌, ◌⊎◌, ◌≢◌, inl, inr, false, Option,
  some, List, [], ◌∷◌, arith, ◌==◌, ltb, length, get_or, get_elem?-eq-get_or, Bool-cases,
}
use artorias.MemPool.{
  Ptr, null, field, Block, block, mk_field, Heap, write, Pool, Malloc, header_size, size_max,
  size_at, memp_alloc, copy_bytes, memcpy, move_block, memp_realloc,
}
use artorias.MemPool.Chain.{IsChain-write, IsPool}
use artorias.MemPool.Pick.{IsSized}
use artorias.MemPool.Alloc.{IsAlloc, memp_alloc-IsAlloc}
use artorias.MemPool.Serve.{IsMalloc, Served}
use artorias.MemPool.Recycle.{memp_recycle-Recycled, not_chained, write_self}

-- `e` has the first `n` bytes of `d`.
abbrev Begins : ℕ → List ℕ → List ℕ → Type 0
Begins n d e = (i : ℕ) → i < n → get_or e i 0 ≡ get_or d i 0

copy_bytes-Begins :
    (n : ℕ) (src dst : List ℕ)
    → n ≤ length src
    → n ≤ length dst
    → (e : List ℕ) × (copy_bytes n src dst ≡ some e) × (length e ≡ length dst) × Begins n src e
unfolding copy_bytes
copy_bytes-Begins zero src dst h l = (dst, refl, refl, λ i h. absurd (omega arith))
copy_bytes-Begins (suc n) [] dst h l = absurd (omega arith)
copy_bytes-Begins (suc n) (x ∷ src) [] h l = absurd (omega arith)
copy_bytes-Begins (suc n) (x ∷ src) (y ∷ dst) h l =
    let (e, copied, len, same) = copy_bytes-Begins n src dst (omega arith) (omega arith) in
    (x ∷ e, rw copied refl, ap suc len, at e same)
  where
    at : (e : List ℕ) → Begins n src e → Begins (suc n) (x ∷ src) (x ∷ e)
    at e same zero h = refl
    at e same (suc i) h = same i (omega arith)

-- New bytes for a block in use leave the pool well formed.
IsPool-write :
    (p : Pool) (frees : ℕ → List Ptr)
    → (is : IsPool p frees) → (a k : ℕ) (d e : List ℕ) → p.heap a ≡ some (block (field k) d)
    → length e ≡ length d
    → IsPool (record p { heap = write p.heap a (some (block (field k) e)) }) frees
unfolding write
IsPool-write p frees is a k d e cell len = record {
  some_n = is.some_n;
  size = is.size;
  sorted = is.sorted;
  fixed = is.fixed;
  large = is.large;
  chain = λ j l.
      IsChain-write p.heap (size_at p.f j) a _ _ (frees j) (not_chained p frees is a k d cell j l)
        (is.chain j l);
  apart = is.apart;
  live = λ b j c h. ground (arith, is.live b j c, is.live a k d cell, len);
  no_null = ground (arith, is.no_null, cell);
}

-- The block has moved to `b`: there are `size` bytes at least, which begin with `n` bytes of the old
-- block; the old block is no longer in use, and all else in memory is as before.
pub record Moved (p : Pool) (a : Ptr) (d : List ℕ) (size n : ℕ) (b : Ptr) (p' : Pool) : Type 0 where
  pub frees : ℕ → List Ptr
  pub pool : IsPool p' frees
  pub ne_null : b ≢ null
  pub moves : b ≢ a
  pub j : ℕ
  pub e : List ℕ
  pub cell : p'.heap b ≡ some (block (field j) e)
  pub enough : size ≤ length e
  pub begins : Begins n d e
  pub not_live : (i : ℕ) (c : List ℕ) → p'.heap a ≢ some (block (field i) c)
  pub others : (x : Ptr) → x ≢ a → x ≢ b → p'.heap x ≡ p.heap x

write_ne : (h : Heap) (a b : Ptr) (c : Option Block) → b ≢ a → write h a c b ≡ h b
unfolding write
write_ne h a b c ne = ground arith

module _ (p : Pool) (frees : ℕ → List Ptr) (is : IsPool p frees) (sized : IsSized p) (a k : ℕ)
    (d : List ℕ) (cell : p.heap a ≡ some (block (field k) d)) (size n : ℕ) (m : Malloc)
    (malloc : IsMalloc p.heap m) where
  Moved-of :
      (b : Ptr) (p1 : Pool)
      → memp_alloc p size m ≡ some (b, p1)
      → Served p size b p1
      → n ≤ size
      → n ≤ length d
      → (p' : Pool) × (move_block p a size n m ≡ some (b, p')) × Moved p a d size n b p'
  unfolding move_block memcpy
  Moved-of b p1 run s fits there =
      let moves : b ≢ a = λ q. s.was_free k d (ap p.heap q ∙ cell) in
      let test : (b == null) ≡ false = ground (arith, s.ne_null) in
      let cell1 : p1.heap a ≡ some (block (field k) d) = s.others a (λ q. moves (sym q)) ∙ cell in
      let (e, copied, len, begins) = copy_bytes-Begins n d s.d there (omega (arith, s.enough)) in
      let p2 : Pool = record p1 { heap = write p1.heap b (some (block (field s.k) e)) } in
      let is2 : IsPool p2 s.frees = IsPool-write p1 s.frees s.pool b s.k s.d e s.cell len in
      let cell2 : p2.heap a ≡ some (block (field k) d) =
        write_ne p1.heap b a _ (λ q. moves (sym q)) ∙ cell1 in
      let (p3, recycled, q) = memp_recycle-Recycled p2 s.frees is2 a k d cell2 in
      (
        p3,
        rw (run, test, cell1, s.cell, copied, recycled),
        record {
          frees = q.frees;
          pool = q.pool;
          ne_null = s.ne_null;
          moves = moves;
          j = s.k;
          e = e;
          cell = q.others b moves ∙ write_self p1.heap b _;
          enough = rw len s.enough;
          begins = begins;
          not_live = q.not_live;
          others = λ x x_a x_b. q.others x x_a ∙ write_ne p1.heap b x _ x_b ∙ s.others x x_b;
        },
      )

  block_size : k < p.n → length d ≡ size_at p.f k
  block_size l = elim (is.live a k d cell) [ inl h ↦ h.1 | inr e ↦ absurd (omega arith) ]

  move_block-Moved :
      size + header_size < 2 ^ 64
      → n ≤ size
      → n ≤ length d
      → (r : Ptr × Pool) × (move_block p a size n m ≡ some r)
        × ((r ≡ (null, p)) ⊎ Moved p a d size n r.0 r.1)
  unfolding move_block
  move_block-Moved small fits there = from (memp_alloc-IsAlloc p frees is sized size m malloc small)
    where
      refused :
          (r : Ptr × Pool)
          → memp_alloc p size m ≡ some r
          → r ≡ (null, p)
          → move_block p a size n m ≡ some (null, p)
      refused r run same =
          let run' : memp_alloc p size m ≡ some (null, p) = run ∙ ap some same in rw run'

      from :
          ((r : Ptr × Pool) × (memp_alloc p size m ≡ some r) × IsAlloc p size m r)
          → (r : Ptr × Pool) × (move_block p a size n m ≡ some r)
            × ((r ≡ (null, p)) ⊎ Moved p a d size n r.0 r.1)
      from (r, run, inl why) = ((null, p), refused r run why.same, inl refl)
      from ((b, p1), run, inr s) =
          let (p', moved, ok) = Moved-of b p1 run s fits there in ((b, p'), moved, inr ok)

-- What `memp_realloc` of the block `a` with the bytes `d` results in: it is too short and there is no
-- memory, and nothing has changed; or it is long enough and stays; or it has moved, with all its bytes.
abbrev pub IsRealloc : Pool → Ptr → List ℕ → ℕ → Ptr → Pool → Type 0
IsRealloc p a d size b p' =
    ((length d < size) × (b ≡ null) × (p' ≡ p))
    ⊎ ((size ≤ length d) × (b ≡ a) × (p' ≡ p))
    ⊎ ((length d < size) × Moved p a d size (length d) b p')

move_block-IsRealloc :
    (p : Pool) (frees : ℕ → List Ptr)
    → IsPool p frees
    → IsSized p
    → (a k : ℕ) (d : List ℕ) → p.heap a ≡ some (block (field k) d)
    → (size n : ℕ) (m : Malloc) → IsMalloc p.heap m
    → size + header_size < 2 ^ 64
    → n ≡ length d
    → length d < size
    → (r : Ptr × Pool) × (move_block p a size n m ≡ some r) × IsRealloc p a d size r.0 r.1
move_block-IsRealloc p frees is sized a k d cell size n m malloc small whole short =
    from (
      move_block-Moved p frees is sized a k d cell size n m malloc small (omega arith)
        (omega arith))
  where
    from :
        ((r : Ptr × Pool) × (move_block p a size n m ≡ some r)
          × ((r ≡ (null, p)) ⊎ Moved p a d size n r.0 r.1))
        → (r : Ptr × Pool) × (move_block p a size n m ≡ some r) × IsRealloc p a d size r.0 r.1
    from (r, run, inl same) = (r, run, inl (short, ap (λ r. r.0) same, ap (λ r. r.1) same))
    from (r, run, inr moved) =
        let moved' : Moved p a d size (length d) r.0 r.1 = rw whole at moved in
        (r, run, inr (inr (short, moved')))

-- On a well-formed pool of at most 255 fields, whose sizes leave room for the header of a block in
-- a `size_t`, with a `malloc` that returns the bytes asked for at an address not in use, and for a
-- size above 0 that fits a `size_t` with the header of a block, `memp_realloc` of a block in use
-- that belongs to a fixed field never faults: a block that is long enough stays, and nothing
-- changes; for want of memory NULL is returned and nothing changes; otherwise the new block has at
-- least the bytes asked for and begins with all bytes of the old one, the old one is no longer in
-- use, all else in memory is as before, and the pool is well formed again.
pub memp_realloc-IsRealloc :
    (p : Pool) (frees : ℕ → List Ptr)
    → IsPool p frees
    → IsSized p
    → (a k : ℕ) (d : List ℕ) → p.heap a ≡ some (block (field k) d)
    → k < p.n
    → (size : ℕ) (m : Malloc) → IsMalloc p.heap m
    → 0 < size
    → size + header_size < 2 ^ 64
    → (r : Ptr × Pool) × (memp_realloc p a size m ≡ some r) × IsRealloc p a d size r.0 r.1
unfolding memp_realloc
memp_realloc-IsRealloc p frees is sized a k d cell l size m malloc some_size small =
    let f = size_at p.f k in
    let len : length d ≡ f = block_size p frees is sized a k d cell size 0 m malloc l in
    let test : (a == null) ≡ false = ground (arith, is.no_null, cell) in
    let nonzero : (size == 0) ≡ false = ground arith in
    let read = get_elem?-eq-get_or p.f k (mk_field 0 null) (omega (arith, l, is.size)) in
    let fixed : (f == size_max) ≡ false = ground (arith, is.fixed k l) in
    rw (test, nonzero, cell, read, fixed)
      (elim (Bool-cases (ltb f size)) [
        | inr stays ↦ rw stays ((a, p), refl, inr (inl (ground arith, refl, refl)))
        | inl short ↦ rw short (
            move_block-IsRealloc p frees is sized a k d cell size f m malloc small (sym len)
              (ground arith))
      ])
