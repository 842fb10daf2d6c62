-- ===== src/MemPool/Tests.antt =====
-- c/src/mem_pool.c: the theorems at concrete pools.
use artorias.Prelude.{ℕ, ◌≡◌, refl, true, none, some, List, [], ◌∷◌, arith, get_or}
use mathlib.Core.List.{Perm}
use artorias.MemPool.{
  Ptr, null, field, block, mk_field, Pool, header_at, fields_of, memp_new, memp_alloc, memp_recycle,
  alloc_field,
}
use artorias.MemPool.Sample.{
  pool, frees, pool-IsPool, pool-IsSized, malloc, malloc-IsMalloc, in_use_100,
}
use artorias.MemPool.Chain.{IsPool}
use artorias.MemPool.Alloc.{IsAlloc, memp_alloc-IsAlloc}
use artorias.MemPool.{memp_realloc}
use artorias.MemPool.Realloc.{IsRealloc, memp_realloc-IsRealloc}
use artorias.MemPool.Recycle.{Recycled, memp_recycle-Recycled, alloc_field-recycle_field}
use artorias.MemPool.Fresh.{IsAscending, memp_new-IsPool}

memp_alloc-IsAlloc_example :
    (r : Ptr × Pool) × (memp_alloc pool 2 malloc ≡ some r) × IsAlloc pool 2 malloc r
memp_alloc-IsAlloc_example =
    memp_alloc-IsAlloc pool frees pool-IsPool pool-IsSized 2 malloc malloc-IsMalloc (omega arith)

memp_recycle-Recycled_example :
    (p : Pool) × (memp_recycle pool 100 ≡ some p) × Recycled pool 100 0 p
memp_recycle-Recycled_example =
    memp_recycle-Recycled pool frees pool-IsPool 100 0 (1 ∷ 2 ∷ []) in_use_100

alloc_field-recycle_field_example :
    (p q : Pool) × (memp_recycle pool 100 ≡ some p)
    × (alloc_field p 0 (malloc 2) (get_or p.f 0 (mk_field 0 null)) ≡ some (100, q))
    × (q.heap 100 ≡ some (block (field 0) (1 ∷ 2 ∷ [])))
    × (q.used ≡ 2)
    × (q.empty ≡ 2)
    × (header_at q.f 0 ≡ 200)
alloc_field-recycle_field_example =
    alloc_field-recycle_field pool frees pool-IsPool 100 0 (1 ∷ 2 ∷ []) in_use_100 (malloc 2)
      (omega arith) (omega arith) (omega arith)

memp_new-IsPool_example :
    (p : Pool) × (memp_new (16 ∷ 8 ∷ []) true (λ _. none) ≡ some p)
    × IsPool p (λ _. [])
    × ((sizes : List ℕ) × Perm sizes (16 ∷ 8 ∷ []) × IsAscending sizes × (p.f ≡ fields_of sizes))
memp_new-IsPool_example =
    memp_new-IsPool (16 ∷ 8 ∷ []) (λ _. none) (omega arith) (omega arith)
      (omega arith, (omega arith, tt)) (λ a. refl)

memp_realloc-IsRealloc_example :
    (r : Ptr × Pool) × (memp_realloc pool 100 3 malloc ≡ some r)
    × IsRealloc pool 100 (1 ∷ 2 ∷ []) 3 r.0 r.1
memp_realloc-IsRealloc_example =
    memp_realloc-IsRealloc pool frees pool-IsPool pool-IsSized 100 0 (1 ∷ 2 ∷ []) in_use_100
      (omega arith) 3 malloc malloc-IsMalloc (omega arith) (omega arith)
