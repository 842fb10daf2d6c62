-- ===== src/MemPool/Sample.antt =====
-- c/src/mem_pool.c: a pool with a block in use and a free one.
use artorias.Prelude.{
  ℕ, zero, suc, ◌+◌, ◌-◌, ◌^◌, ◌≤◌, ◌<◌, ◌≡◌, refl, ◌⊎◌, inl, none, some, List, [], ◌∷◌, arith,
  ◌==◌, if◌then◌else◌, length, replicate, length-replicate,
}
use artorias.MemPool.{
  Ptr, null, field, next, block, mk_field, Heap, Pool, Malloc, header_size, size_max, size_at,
  header_at,
}
use artorias.MemPool.Chain.{IsChain, IsPool}
use artorias.MemPool.Pick.{IsSized}
use artorias.MemPool.Serve.{IsMalloc}

-- A pool with one field of 2 bytes, where the block at 100 is in use and the block at 200 is free.
pub heap : Heap
heap a =
    if a == 100
    then some (block (field 0) (1 ∷ 2 ∷ []))
    else if a == 200
    then some (block (next null) (3 ∷ 4 ∷ []))
    else none

abbrev pub pool : Pool
pool = record {
  n = 1;
  f = mk_field 2 200 ∷ mk_field size_max null ∷ [];
  empty = 2;
  used = 2;
  heap = heap;
}

abbrev pub frees : ℕ → List Ptr
frees k = 200 ∷ []

only_field : (k : ℕ) → k < 1 → k ≡ 0
only_field k h = omega arith

in_use : (a k : ℕ) (d : List ℕ) → heap a ≡ some (block (field k) d) → (k ≡ 0) × (length d ≡ 2)
unfolding heap
in_use a k d h = ground arith

pool-IsChain : (k : ℕ) → k < 1 → IsChain heap (size_at pool.f k) (header_at pool.f k) (frees k)
unfolding heap
pool-IsChain zero h = (null, 3 ∷ 4 ∷ [], refl, omega arith, refl, refl, refl, refl)
pool-IsChain (suc k) h = absurd (omega arith)

pool_fixed : (k : ℕ) → k < 1 → size_at pool.f k < size_max
pool_fixed zero h = omega arith
pool_fixed (suc k) h = absurd (omega arith)

pool_sorted : (i j : ℕ) → i ≤ j → j < 1 → size_at pool.f i ≤ size_at pool.f j
pool_sorted zero zero h l = omega arith
pool_sorted (suc i) zero h l = absurd (omega arith)
pool_sorted i (suc j) h l = absurd (omega arith)

pool_live :
    (k : ℕ) (d : List ℕ)
    → (k ≡ 0) × (length d ≡ 2)
    → ((k < 1) × (length d ≡ size_at pool.f k)) ⊎ (k ≡ 1)
pool_live zero d (e, l) = inl (omega arith, l)
pool_live (suc k) d (e, l) = absurd (omega arith)

pub pool-IsPool : IsPool pool frees
unfolding heap
pool-IsPool = record {
  some_n = omega arith;
  size = refl;
  sorted = pool_sorted;
  fixed = pool_fixed;
  large = refl;
  chain = pool-IsChain;
  apart = λ j k a lj lk mj mk. omega arith;
  live = λ a k d h. pool_live k d (in_use a k d h);
  no_null = refl;
}

pool_room : (k : ℕ) → k < 1 → size_at pool.f k + header_size < 2 ^ 64
pool_room zero h = omega arith
pool_room (suc k) h = absurd (omega arith)

pub pool-IsSized : IsSized pool
pool-IsSized = record { few = omega arith; room = pool_room }

pub malloc : Malloc
malloc size = record { at = 300; mem = replicate (size - header_size) 7 }

pub malloc-IsMalloc : IsMalloc heap malloc
unfolding malloc heap
malloc-IsMalloc = record {
  length_mem = λ r ne. length-replicate (r - header_size) 7;
  unused = λ r ne. refl;
}

pub in_use_100 : heap 100 ≡ some (block (field 0) (1 ∷ 2 ∷ []))
unfolding heap
in_use_100 = refl
