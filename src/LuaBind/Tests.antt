-- ===== src/LuaBind/Tests.antt =====
-- c/src/lua_bind.c: the allocator on a pool with a block in use, and the tables of a Lua state.
use artorias.Prelude.{◌≡◌, ◌∷◌, [], arith, refl}
use artorias.MemPool.Sample.{
  pool, frees, pool-IsPool, pool-IsSized, malloc, malloc-IsMalloc, in_use_100,
}
use artorias.Lua.{nil, str, integer, light, function, top}
use artorias.Lua.Sample.{lua, lua-IsInterp, begin}
use artorias.LuaBind.Laws.{IsAllocator, lalloc-IsAllocator}
use artorias.LuaBind.Threads.{returned}
use artorias.LuaBind.Threads.Lent.{IsReady, IsLent, lbind_unref_tid_lthread-IsLent}
use artorias.LuaBind.Locals.{int_arg, stack_arg, set_va_list}
use artorias.LuaBind.Locals.Fetched.{HasLocals, IsFetched, lbind_get_thread_local_vars-IsFetched}
use artorias.LuaBind.Chunks.{lbind_get_lcode_chunk}

lalloc-IsAllocator_example : IsAllocator pool 100 0 (1 ∷ 2 ∷ []) 5 3 malloc
lalloc-IsAllocator_example =
    lalloc-IsAllocator pool frees pool-IsPool pool-IsSized 100 0 (1 ∷ 2 ∷ []) in_use_100
      (omega arith) 5 3 malloc malloc-IsMalloc (omega arith) (omega arith)

begin-IsReady : IsReady lua 6 7 begin
begin-IsReady = record { threads_there = refl; locals_there = refl; apart = refl }

lbind_unref_tid_lthread-IsLent_example : IsLent lua 6 7 42 begin
lbind_unref_tid_lthread-IsLent_example =
    lbind_unref_tid_lthread-IsLent lua lua-IsInterp 6 7 42 begin begin-IsReady

begin-HasLocals : HasLocals lua 5 3 7 begin
begin-HasLocals = record { locals_there = refl; own = refl }

lbind_get_thread_local_vars-IsFetched_example :
    IsFetched lua 5 3 20 500 (21 ∷ 22 ∷ []) (nil ∷ []) begin
lbind_get_thread_local_vars-IsFetched_example =
    lbind_get_thread_local_vars-IsFetched lua 5 3 lua-IsInterp 7 20 500 (21 ∷ 22 ∷ []) (nil ∷ [])
      begin begin-HasLocals refl

two_fields :
    set_va_list lua 5 0 ((20, int_arg 1) ∷ (21, stack_arg (top 1)) ∷ []) (light 9 ∷ []) begin
    ≡ returned tt (
        record { at = 3; key = str 21; value = light 9 }
        ∷ record { at = 3; key = str 20; value = integer 1 }
        ∷ begin)
unfolding set_va_list
two_fields = refl

still_there :
    lbind_get_lcode_chunk lua 30 (record { at = 8; key = str 30; value = function 30 } ∷ begin)
    ≡ returned (function 30) (record { at = 8; key = str 30; value = function 30 } ∷ begin)
unfolding lbind_get_lcode_chunk
still_there = refl
