-- ===== src/LuaBind.antt =====
-- c/src/lua_bind.c: `lalloc`, the allocator that a Lua state gets, on the pool of c/src/mem_pool.c. Its
-- contract is the one that the Lua manual gives for `lua_Alloc`.
pub mod Laws
pub mod Threads
pub mod Chunks
pub mod Locals
mod Tests
use artorias.Prelude.{
  ℕ, suc, ◌+◌, ◌*◌, ◌%◌, ◌^◌, ◌≤◌, ◌<◌, ◌≡◌, refl, sym, ap, ◌∙◌, ◌⊎◌, ◌≢◌, inl, inr, true, false,
  Option, none, some, List, arith, ◌==◌, if◌then◌else◌, Bool-cases, ◌>>=◌,
}
use artorias.MemPool.{
  Ptr, null, field, block, Pool, Malloc, size_max, memp_alloc, memp_recycle, memp_realloc,
}
use artorias.MemPool.Chain.{IsPool}
use artorias.MemPool.Serve.{IsMalloc, Served}
use artorias.MemPool.Alloc.{IsAlloc, memp_alloc-IsAlloc}
use artorias.MemPool.Recycle.{Recycled, memp_recycle-Recycled}
use artorias.MemPool.Realloc.{IsRealloc, memp_realloc-IsRealloc}

-- `LUA_TTABLE`
abbrev pub lua_ttable : ℕ
lua_ttable = 5

-- How much is asked for when `osize` says what is allocated; the product is a `size_t`.
pub alloc_size : ℕ → ℕ → ℕ
alloc_size osize nsize = if osize == lua_ttable then nsize * 4 % 2 ^ 64 else nsize

pub lalloc : Pool → Ptr → ℕ → ℕ → Malloc → Option (Ptr × Pool)
unfolding alloc_size
lalloc p ptr osize nsize m =
    if nsize == 0
    then (memp_recycle p ptr >>= λ p'. some (null, p'))
    else if ptr == null
    then memp_alloc p (alloc_size osize nsize) m
    else memp_realloc p ptr nsize m
