-- ===== src/LuaBind/Laws.antt =====
-- c/src/lua_bind.c: `lalloc` against the contract of `lua_Alloc`.
use artorias.Prelude.{
  ℕ, ◌+◌, ◌*◌, ◌^◌, ◌≤◌, ◌<◌, ◌≡◌, inl, inr, false, some, List, arith, ◌==◌, Bool-cases,
}
use artorias.MemPool.{Ptr, null, field, block, Pool, Malloc, header_size}
use artorias.MemPool.Chain.{IsPool}
use artorias.MemPool.Pick.{IsSized}
use artorias.MemPool.Serve.{IsMalloc}
use artorias.MemPool.Alloc.{IsAlloc, memp_alloc-IsAlloc}
use artorias.MemPool.Recycle.{Recycled, memp_recycle-Recycled}
use artorias.MemPool.Realloc.{IsRealloc, memp_realloc-IsRealloc}
use artorias.LuaBind.{lua_ttable, alloc_size, lalloc}

-- The three uses of an allocator: to free a block `a` of the field `k` with the bytes `d`, to resize it,
-- and to get a new one.
pub record IsAllocator (p : Pool) (a : Ptr) (k : ℕ) (d : List ℕ) (osize nsize : ℕ) (m : Malloc)
    : Type 0 where
  pub frees_block : (p' : Pool) × (lalloc p a osize 0 m ≡ some (null, p')) × Recycled p a k p'
  pub resizes :
      (r : Ptr × Pool) × (lalloc p a osize nsize m ≡ some r) × IsRealloc p a d nsize r.0 r.1
  pub allocates :
      (r : Ptr × Pool) × (lalloc p null osize nsize m ≡ some r)
      × IsAlloc p (alloc_size osize nsize) m r
      × (nsize ≤ alloc_size osize nsize)

alloc_size-bounds :
    (osize nsize : ℕ)
    → nsize * 4 + header_size < 2 ^ 64
    → (nsize ≤ alloc_size osize nsize) × (alloc_size osize nsize + header_size < 2 ^ 64)
unfolding alloc_size
alloc_size-bounds osize nsize small = elim (Bool-cases (osize == lua_ttable)) [
  | inl table ↦ rw table (omega arith, omega arith)
  | inr other ↦ rw other (omega arith, omega arith)
]

-- On a well-formed pool of at most 255 fields, whose sizes leave room for the header of a block in
-- a `size_t`, with a `malloc` that returns the bytes asked for at an address not in use, for a
-- block in use of a fixed field, and for a size above 0 of which four times, with the header of a
-- block, fits a `size_t`, `lalloc` does what `lua_Alloc` has to: with size 0 it gives the block
-- back to the pool and returns NULL; it resizes the block as `memp_realloc` does, which keeps its
-- bytes or, for want of memory, changes nothing; and for NULL it allocates as `memp_alloc` does,
-- for a size that is not less than the one asked for.
pub lalloc-IsAllocator :
    (p : Pool) (frees : ℕ → List Ptr)
    → IsPool p frees
    → IsSized p
    → (a k : ℕ) (d : List ℕ) → p.heap a ≡ some (block (field k) d)
    → k < p.n
    → (osize nsize : ℕ) (m : Malloc) → IsMalloc p.heap m
    → 0 < nsize
    → nsize * 4 + header_size < 2 ^ 64
    → IsAllocator p a k d osize nsize m
unfolding lalloc
lalloc-IsAllocator p frees is sized a k d cell l osize nsize m malloc some_size small =
    let (p', freed, recycled) = memp_recycle-Recycled p frees is a k d cell in
    let (enough, fits) = alloc_size-bounds osize nsize small in
    let nonzero : (nsize == 0) ≡ false = ground arith in
    let not_null : (a == null) ≡ false = ground (arith, is.no_null, cell) in
    let (r, run, ok) =
      memp_realloc-IsRealloc p frees is sized a k d cell l nsize m malloc some_size (omega arith) in
    let (q, run', ok') =
      memp_alloc-IsAlloc p frees is sized (alloc_size osize nsize) m malloc fits in
    record {
      frees_block = (p', rw freed, recycled);
      resizes = (r, rw (nonzero, not_null) run, ok);
      allocates = (q, rw nonzero run', ok', enough);
    }
