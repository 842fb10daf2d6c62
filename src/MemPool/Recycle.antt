-- ===== src/MemPool/Recycle.antt =====
-- c/src/mem_pool.c: `memp_recycle`.
use artorias.Prelude.{
  ℕ, ◌^◌, ◌<◌, ◌≡◌, refl, ◌∙◌, ◌⊎◌, ◌≢◌, inl, inr, true, false, Option, none, some, List, ◌∷◌,
  arith, ◌==◌, if◌then◌else◌, length, get_or, set, get_or-set, length-set, get_elem?-eq-get_or,
  Bool-cases,
}
use artorias.MemPool.{
  Ptr, null, field, next, Block, block, mk_field, Heap, write, Pool, Grant, size_max, size_at,
  header_at, add_int, sub_int, alloc_field, recycle_field, memp_recycle,
}
use artorias.MemPool.Chain.{
  has, IsChain-write, IsChain-mem, IsPool, relink, size_at-relink, header_at-relink,
}

-- The block at `a`, of the field `k`, is no longer in use: it stands in that field's free list, or is
-- gone if the field is the last one. Nothing else has changed in memory.
pub record Recycled (p : Pool) (a : Ptr) (k : ℕ) (p' : Pool) : Type 0 where
  pub frees : ℕ → List Ptr
  pub pool : IsPool p' frees
  pub listed : k < p.n → has a (frees k) ≡ true
  pub gone : k ≡ p.n → p'.heap a ≡ none
  pub not_live : (j : ℕ) (e : List ℕ) → p'.heap a ≢ some (block (field j) e)
  pub others : (x : Ptr) → x ≢ a → p'.heap x ≡ p.heap x

pub write_self : (h : Heap) (a : Ptr) (c : Option Block) → write h a c a ≡ c
unfolding write
write_self h a c = ground arith

add_sub : (x s : ℕ) → x < 2 ^ 32 → add_int (sub_int x s) s ≡ x
unfolding add_int sub_int
add_sub x s h = omega arith

sub_add : (x s : ℕ) → x < 2 ^ 32 → sub_int (add_int x s) s ≡ x
unfolding add_int sub_int
sub_add x s h = omega arith

module _ (p : Pool) (frees : ℕ → List Ptr) (is : IsPool p frees) (a : Ptr) (k : ℕ) (d : List ℕ)
    (cell : p.heap a ≡ some (block (field k) d)) where
  pub not_chained : (j : ℕ) → j < p.n → has a (frees j) ≡ false
  not_chained j l = elim (Bool-cases (has a (frees j))) [
    | inl m ↦
        let (q, e, free) =
          IsChain-mem p.heap (size_at p.f j) a (header_at p.f j) (frees j) (is.chain j l) m in
        cc
    | inr out ↦ out
  ]

  ne_null : a ≢ null
  ne_null e = let at_null : p.heap null ≡ some (block (field k) d) = rw e at cell in cc (is.no_null)

  Recycled-large : k ≡ p.n → Recycled p a k (record p { heap = write p.heap a none })
  unfolding write
  Recycled-large e = record {
    frees = frees;
    pool = record {
      some_n = is.some_n;
      size = is.size;
      sorted = is.sorted;
      fixed = is.fixed;
      large = is.large;
      chain = λ j l.
          IsChain-write p.heap (size_at p.f j) a none (header_at p.f j) (frees j) (not_chained j l)
            (is.chain j l);
      apart = is.apart;
      live = λ b j e h. ground (arith, is.live b j e);
      no_null = ground (arith, is.no_null);
    };
    listed = λ l. absurd (omega arith);
    gone = λ _. ground arith;
    not_live = λ j e h. ground arith;
    others = λ x ne. ground arith;
  }

  module _ (l : k < p.n) (len : length d ≡ size_at p.f k) (e u : ℕ) where
    abbrev in_range : k < length p.f
    in_range = rw is.size (omega (arith, l))

    mem_old :
        (y : Ptr) (j : ℕ)
        → has y (if j == k then a ∷ frees k else frees j) ≡ true
        → (y ≡ a) × (j ≡ k) ⊎ (has y (frees j) ≡ true)
    mem_old y j m = elim (Bool-cases (j == k)) [
      | inl here ↦
          let e : j ≡ k = ground arith in
          elim (Bool-cases (y == a)) [
            | inl new ↦ inl (ground arith, e)
            | inr old ↦ inr (rw e (ground arith))
          ]
      | inr away ↦ inr (rw away at m)
    ]

    apart_of :
        (i j : ℕ) (y : Ptr)
        → i < p.n
        → j < p.n
        → (y ≡ a) × (i ≡ k) ⊎ (has y (frees i) ≡ true)
        → (y ≡ a) × (j ≡ k) ⊎ (has y (frees j) ≡ true)
        → i ≡ j
    apart_of i j y li lj (inl (ea, ei)) (inl (eb, ej)) = omega arith
    apart_of i j y li lj (inl (ea, ei)) (inr mj) =
        let m : has a (frees j) ≡ true = rw ea at mj in cc (not_chained j lj)
    apart_of i j y li lj (inr mi) (inl (eb, ej)) =
        let m : has a (frees i) ≡ true = rw eb at mi in cc (not_chained i li)
    apart_of i j y li lj (inr mi) (inr mj) = is.apart i j y li lj mi mj

    Recycled-field : Recycled p a k (record p {
      f = relink p.f k a;
      heap = write p.heap a (some (block (next (header_at p.f k)) d));
      empty = e;
      used = u;
    })
    unfolding write
    Recycled-field = record {
      frees = λ j. if j == k then a ∷ frees k else frees j;
      pool = record {
        some_n = is.some_n;
        size = length-set p.f k _ ∙ is.size;
        sorted = λ i j le lt.
            rw (size_at-relink p.f k a in_range i, size_at-relink p.f k a in_range j)
              (is.sorted i j le lt);
        fixed = λ j lt. rw (size_at-relink p.f k a in_range j) (is.fixed j lt);
        large = rw (size_at-relink p.f k a in_range p.n) is.large;
        chain = λ j lt. elim (Bool-cases (j == k)) [
          | inl here ↦
              let e' : j ≡ k = ground arith in
              let hit : (k == k) ≡ true = ground arith in
              rw (size_at-relink p.f k a in_range j, header_at-relink p.f k a in_range j, e', hit)
                (
                  header_at p.f k,
                  d,
                  refl,
                  ne_null,
                  not_chained k l,
                  ground arith,
                  len,
                  IsChain-write p.heap (size_at p.f k) a _ (header_at p.f k) (frees k)
                      (not_chained k l) (is.chain k l),
                )
          | inr away ↦
              rw (size_at-relink p.f k a in_range j, header_at-relink p.f k a in_range j, away)
                (IsChain-write p.heap (size_at p.f j) a _ (header_at p.f j) (frees j)
                  (not_chained j lt) (is.chain j lt))
        ];
        apart = λ i j y li lj mi mj. apart_of i j y li lj (mem_old y i mi) (mem_old y j mj);
        live = λ b j e h. rw (size_at-relink p.f k a in_range j) (ground (arith, is.live b j e));
        no_null = ground (arith, is.no_null, ne_null);
      };
      listed = λ _. ground arith;
      gone = λ e. absurd (omega arith);
      not_live = λ j e h. ground arith;
      others = λ x ne. ground arith;
    }

  recycle_of :
      ((k < p.n) × (length d ≡ size_at p.f k)) ⊎ (k ≡ p.n)
      → (p' : Pool) × (memp_recycle p a ≡ some p') × Recycled p a k p'
  unfolding memp_recycle recycle_field
  recycle_of (inl (l, len)) =
      let not_null : (a == null) ≡ false = ground (arith, ne_null) in
      let small : (size_at p.f k == size_max) ≡ false = ground (arith, is.fixed k l) in
      rw
        (
          not_null,
          cell,
          get_elem?-eq-get_or p.f k (mk_field 0 null) (omega (arith, is.size)),
          small,
        )
        (
          _,
          refl,
          Recycled-field l len (add_int p.empty (size_at p.f k)) (sub_int p.used (size_at p.f k)),
        )
  recycle_of (inr e) =
      let not_null : (a == null) ≡ false = ground (arith, ne_null) in
      let large : (size_at p.f k == size_max) ≡ true = rw (e, is.large) refl in
      rw
        (
          not_null,
          cell,
          get_elem?-eq-get_or p.f k (mk_field 0 null) (omega (arith, is.size)),
          large,
        )
        (_, refl, Recycled-large e)

  -- On a well-formed pool, for the address of a block in use, `memp_recycle` never faults: the
  -- block is no longer in use, it stands in the free list of its field or, if that is the last one,
  -- is gone; all else in memory is as before, and the pool stays well formed.
  pub memp_recycle-Recycled : (p' : Pool) × (memp_recycle p a ≡ some p') × Recycled p a k p'
  memp_recycle-Recycled = recycle_of (is.live a k d cell)

  -- On a well-formed pool whose counters fit 32 bits, a block of a fixed field that is given back
  -- and then taken again from that field is the same block with the same bytes, and both counters
  -- and the head of the free list are as they were.
  pub alloc_field-recycle_field :
      (g : Grant)
      → k < p.n
      → p.used < 2 ^ 32
      → p.empty < 2 ^ 32
      → (p' p'' : Pool) × (memp_recycle p a ≡ some p')
        × (alloc_field p' k g (get_or p'.f k (mk_field 0 null)) ≡ some (a, p''))
        × (p''.heap a ≡ some (block (field k) d))
        × (p''.used ≡ p.used)
        × (p''.empty ≡ p.empty)
        × (header_at p''.f k ≡ header_at p.f k)
  unfolding memp_recycle recycle_field alloc_field
  alloc_field-recycle_field g l u e =
      let s = size_at p.f k in
      let in_range : k < length p.f = rw is.size (omega (arith, l)) in
      let p1 : Pool = record p {
        f = relink p.f k a;
        heap = write p.heap a (some (block (next (header_at p.f k)) d));
        empty = add_int p.empty s;
        used = sub_int p.used s;
      } in
      let p2 : Pool = record p {
        f = set p1.f k (mk_field s (header_at p.f k));
        heap = write p1.heap a (some (block (field k) d));
        empty = sub_int p1.empty s;
        used = add_int p1.used s;
      } in
      let not_null : (a == null) ≡ false = ground (arith, ne_null) in
      let small : (s == size_max) ≡ false = ground (arith, is.fixed k l) in
      let relinked : get_or p1.f k (mk_field 0 null) ≡ mk_field s a =
        ground (arith, get_or-set p.f k k (mk_field s a) (mk_field 0 null) in_range) in
      let cell' : p1.heap a ≡ some (block (next (header_at p.f k)) d) = write_self p.heap a _ in
      let in_range' : k < length p1.f = rw (length-set p.f k (mk_field s a)) in_range in
      (
        p1,
        p2,
        rw (not_null, cell, get_elem?-eq-get_or p.f k (mk_field 0 null) in_range, small),
        rw (relinked, not_null, cell'),
        write_self p1.heap a _,
        add_sub p.used s u,
        sub_add p.empty s e,
        ground
            (arith, get_or-set p1.f k k (mk_field s (header_at p.f k)) (mk_field 0 null) in_range'),
      )
