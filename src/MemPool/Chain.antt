-- ===== src/MemPool/Chain.antt =====
-- c/src/mem_pool.c: the free lists, and when a pool is well formed.
use artorias.Prelude.{
  ℕ, ◌+◌, ◌<◌, ◌≡◌, ◌⊎◌, ◌≢◌, inl, inr, Bool, true, false, Option, none, some, List, [], ◌∷◌, arith,
  ◌==◌, if◌then◌else◌, ◌||◌, length, get_or, set, get_or-set, Bool-cases,
}
use artorias.BinarySearch.Laws.{IsSorted}
use artorias.MemPool.{
  Ptr, null, field, next, Block, block, Field, mk_field, Heap, write, Pool, size_max, size_at,
  header_at,
}

abbrev pub has : Ptr → List Ptr → Bool
has a [] = false
has a (x ∷ xs) = (a == x) || has a xs

-- From `p` the free blocks `xs` lead to NULL; each has `size` bytes.
abbrev pub IsChain : Heap → ℕ → Ptr → List Ptr → Type 0
IsChain h size p [] = p ≡ null
IsChain h size p (x ∷ xs) =
    (q : Ptr) × (d : List ℕ) × (p ≡ x)
    × (x ≢ null)
    × (has x xs ≡ false)
    × (h x ≡ some (block (next q) d))
    × (length d ≡ size)
    × IsChain h size q xs

pub IsChain-write :
    (h : Heap) (size : ℕ) (a : Ptr) (c : Option Block) (p : Ptr) (xs : List Ptr)
    → has a xs ≡ false
    → IsChain h size p xs
    → IsChain (write h a c) size p xs
unfolding write
IsChain-write h size a c p [] out ch = ch
IsChain-write h size a c p (x ∷ xs) out (q, d, e, nn, nd, cell, len, rest) =
    (q, d, e, nn, nd, ground arith, len, IsChain-write h size a c q xs (ground arith) rest)

-- What a chain holds is a free block.
pub IsChain-mem :
    (h : Heap) (size : ℕ) (a p : Ptr) (xs : List Ptr)
    → IsChain h size p xs
    → has a xs ≡ true
    → (q : Ptr) × (d : List ℕ) × (h a ≡ some (block (next q) d))
IsChain-mem h size a p [] ch m = cc
IsChain-mem h size a p (x ∷ xs) (q, d, e, nn, nd, cell, len, rest) m = elim (Bool-cases (a == x)) [
  | inl here ↦ let e' : a ≡ x = ground arith in (q, d, rw e' cell)
  | inr there ↦ IsChain-mem h size a q xs rest (ground arith)
]

-- The fields after a change of one header.
abbrev pub relink : List Field → ℕ → Ptr → List Field
relink f i q = set f i (record (get_or f i (mk_field 0 null)) { header = q })

module _ (f : List Field) (i : ℕ) (q : Ptr) (in_range : i < length f) where
  pub size_at-relink : (j : ℕ) → size_at (relink f i q) j ≡ size_at f j
  size_at-relink j = ground (
    arith,
    get_or-set f i j (record (get_or f i (mk_field 0 null)) { header = q }) (mk_field 0 null)
        in_range,
  )

  pub header_at-relink :
      (j : ℕ) → header_at (relink f i q) j ≡ (if j == i then q else header_at f j)
  header_at-relink j = ground (
    arith,
    get_or-set f i j (record (get_or f i (mk_field 0 null)) { header = q }) (mk_field 0 null)
        in_range,
  )

-- A pool is well formed with the free lists `frees k` of its fields `k`.
pub record IsPool (p : Pool) (frees : ℕ → List Ptr) : Type 0 where
  pub some_n : 0 < p.n
  pub size : length p.f ≡ p.n + 1
  pub sorted : IsSorted (size_at p.f) p.n
  pub fixed : (k : ℕ) → k < p.n → size_at p.f k < size_max
  pub large : size_at p.f p.n ≡ size_max
  pub chain : (k : ℕ) → k < p.n → IsChain p.heap (size_at p.f k) (header_at p.f k) (frees k)
  pub apart :
      (j k : ℕ) (a : Ptr)
      → j < p.n
      → k < p.n
      → has a (frees j) ≡ true
      → has a (frees k) ≡ true
      → j ≡ k
  pub live :
      (a k : ℕ) (d : List ℕ)
      → p.heap a ≡ some (block (field k) d)
      → ((k < p.n) × (length d ≡ size_at p.f k)) ⊎ (k ≡ p.n)
  pub no_null : p.heap null ≡ none
