-- ===== src/MemPool/Serve.antt =====
-- c/src/mem_pool.c: the two ways in which `memp_alloc` serves a block, a new one and a free one.
use artorias.Prelude.{
  ℕ, ◌+◌, ◌-◌, ◌^◌, ◌≤◌, ◌<◌, ◌≡◌, refl, ◌∙◌, ◌⊎◌, ◌≢◌, inl, inr, true, false, none, some, List,
  ◌∷◌, arith, ◌==◌, ltb, if◌then◌else◌, length, length-set, Bool-cases,
}
use artorias.MemPool.{
  Ptr, null, field, next, block, Heap, write, Pool, Grant, Malloc, header_size, asked, size_at,
  header_at,
}
use artorias.MemPool.Chain.{
  has, IsChain, IsChain-write, IsChain-mem, IsPool, relink, size_at-relink, header_at-relink,
}
use artorias.MemPool.Pick.{BestFit}

-- What the pool relies on of `malloc`: where it does not fail, it returns the bytes asked for, at an
-- address that is not in use; `mem` are those that follow the header.
pub record IsMalloc (h : Heap) (m : Malloc) : Type 0 where
  pub length_mem : (r : ℕ) → (m r).at ≢ null → length (m r).mem ≡ r - header_size
  pub unused : (r : ℕ) → (m r).at ≢ null → h (m r).at ≡ none

-- Without a wrap, a block has its bytes behind the header.
pub asked_fits :
    (size : ℕ)
    → size + header_size < 2 ^ 64
    → (ltb (asked size) header_size ≡ false) × (asked size - header_size ≡ size)
unfolding asked
asked_fits size fits = (ground arith, omega arith)

-- A block `a` of at least `size` bytes is in use, and was not before; nothing else has changed.
pub record Served (p : Pool) (size : ℕ) (a : Ptr) (p' : Pool) : Type 0 where
  pub frees : ℕ → List Ptr
  pub pool : IsPool p' frees
  pub ne_null : a ≢ null
  pub d : List ℕ
  pub k : ℕ
  pub best : BestFit p size k
  pub cell : p'.heap a ≡ some (block (field k) d)
  pub enough : size ≤ length d
  pub was_free : (j : ℕ) (e : List ℕ) → p.heap a ≢ some (block (field j) e)
  pub sizes : (j : ℕ) → size_at p'.f j ≡ size_at p.f j
  pub count : p'.n ≡ p.n
  pub others : (x : Ptr) → x ≢ a → p'.heap x ≡ p.heap x

module _ (p : Pool) (frees : ℕ → List Ptr) (is : IsPool p frees) (size : ℕ) (g : Grant)
    (got : g.at ≢ null) (unused : p.heap g.at ≡ none) where
  not_chained : (k : ℕ) → k < p.n → has g.at (frees k) ≡ false
  not_chained k l = elim (Bool-cases (has g.at (frees k))) [
    | inl m ↦
        let (q, d, cell) =
          IsChain-mem p.heap (size_at p.f k) g.at (header_at p.f k) (frees k) (is.chain k l) m in
        cc
    | inr out ↦ out
  ]

  -- A new block for the field `k` leaves the pool well formed.
  pub fresh-Served :
      (k used : ℕ)
      → ((k < p.n) × (length g.mem ≡ size_at p.f k)) ⊎ (k ≡ p.n)
      → size ≤ length g.mem
      → BestFit p size k
      → Served p size g.at
          (record p { heap = write p.heap g.at (some (block (field k) g.mem)); used = used })
  unfolding write
  fresh-Served k used fits enough best = record {
    frees = frees;
    pool = record {
      some_n = is.some_n;
      size = is.size;
      sorted = is.sorted;
      fixed = is.fixed;
      large = is.large;
      chain = λ j l.
          unfold write in
          IsChain-write p.heap (size_at p.f j) g.at (some (block (field k) g.mem)) (header_at p.f j)
            (frees j) (not_chained j l) (is.chain j l);
      apart = is.apart;
      live = λ a j d e. ground (arith, is.live a j d);
      no_null = ground (arith, is.no_null);
    };
    ne_null = got;
    d = g.mem;
    k = k;
    best = best;
    cell = ground arith;
    enough = enough;
    was_free = λ j e h. cc;
    sizes = λ j. refl;
    count = refl;
    others = λ x ne. ground arith;
  }

module _ (p : Pool) (frees : ℕ → List Ptr) (is : IsPool p frees) (size i : ℕ) (l : i < p.n)
    (best : BestFit p size i) where
  abbrev in_range : i < length p.f
  in_range = rw is.size (omega (arith, l))

  elsewhere :
      (x : Ptr) (xs : List Ptr)
      → frees i ≡ x ∷ xs
      → (j : ℕ) → j < p.n
      → j ≢ i
      → has x (frees j) ≡ false
  elsewhere x xs free j lt ne = elim (Bool-cases (has x (frees j))) [
    | inl m ↦ absurd (ne (is.apart j i x lt l m (rw free (ground arith))))
    | inr out ↦ out
  ]

  mem_old :
      (x : Ptr) (xs : List Ptr) (y : Ptr)
      → frees i ≡ x ∷ xs
      → (k : ℕ) → has y (if k == i then xs else frees k) ≡ true
      → has y (frees k) ≡ true
  mem_old x xs y free k m = elim (Bool-cases (k == i)) [
    | inl here ↦
        let e : k ≡ i = ground arith in
        let m' : has y xs ≡ true = rw here at m in rw (e, free) (ground arith)
    | inr away ↦ rw away at m
  ]

  -- The head of the free list of the field `i` is taken off it.
  pub pop-Served :
      (x : Ptr) (xs : List Ptr) (q : Ptr) (d : List ℕ)
      → frees i ≡ x ∷ xs
      → x ≢ null
      → has x xs ≡ false
      → p.heap x ≡ some (block (next q) d)
      → length d ≡ size_at p.f i
      → IsChain p.heap (size_at p.f i) q xs
      → (e u : ℕ)
      → Served p size x (record p {
        f = relink p.f i q;
        heap = write p.heap x (some (block (field i) d));
        empty = e;
        used = u;
      })
  unfolding write
  pop-Served x xs q d free ne out cell len rest e u = record {
    frees = λ k. if k == i then xs else frees k;
    pool = record {
      some_n = is.some_n;
      size = length-set p.f i _ ∙ is.size;
      sorted = λ a b le lt.
          rw (size_at-relink p.f i q in_range a, size_at-relink p.f i q in_range b)
            (is.sorted a b le lt);
      fixed = λ k lt. rw (size_at-relink p.f i q in_range k) (is.fixed k lt);
      large = rw (size_at-relink p.f i q in_range p.n) is.large;
      chain = λ j lt. elim (Bool-cases (j == i)) [
        | inl here ↦
            let e' : j ≡ i = ground arith in
            let hit : (i == i) ≡ true = ground arith in
            rw (size_at-relink p.f i q in_range j, header_at-relink p.f i q in_range j, e', hit)
              (IsChain-write p.heap (size_at p.f i) x _ q xs out rest)
        | inr away ↦
            rw (size_at-relink p.f i q in_range j, header_at-relink p.f i q in_range j, away)
              (IsChain-write p.heap (size_at p.f j) x _ (header_at p.f j) (frees j)
                (elsewhere x xs free j lt (ground arith)) (is.chain j lt))
      ];
      apart = λ a b y la lb ma mb.
          is.apart a b y la lb (mem_old x xs y free a ma) (mem_old x xs y free b mb);
      live = λ a j d' h. rw (size_at-relink p.f i q in_range j) (ground (arith, is.live a j d'));
      no_null = ground (arith, is.no_null);
    };
    ne_null = ne;
    d = d;
    k = i;
    best = best;
    cell = ground arith;
    enough = rw len (best.fits l);
    was_free = λ j e h. cc;
    sizes = λ j. size_at-relink p.f i q in_range j;
    count = refl;
    others = λ y nx. ground arith;
  }
