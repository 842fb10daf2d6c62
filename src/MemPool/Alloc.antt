-- ===== src/MemPool/Alloc.antt =====
-- c/src/mem_pool.c: `memp_alloc`.
use artorias.Prelude.{
  ℕ, ◌+◌, ◌^◌, ◌<◌, ◌≡◌, ◌∙◌, refl, ◌⊎◌, ◌≢◌, inl, inr, true, false, some, List, [], ◌∷◌, arith,
  ◌==◌, leb, length, get_or, get_elem?-eq-get_or, Bool-cases,
}
use artorias.MemPool.{
  Ptr, null, next, block, Field, mk_field, Pool, Malloc, header_size, asked, size_at, header_at,
  add_int, sub_int, alloc_large, alloc_field, memp_alloc,
}
use artorias.MemPool.Chain.{has, IsChain, IsPool}
use artorias.MemPool.Pick.{IsSized, BestFit, pick-BestFit}
use artorias.MemPool.Serve.{IsMalloc, Served, asked_fits, fresh-Served, pop-Served}

-- A refusal changes nothing, and has a reason: the size 0, or no memory.
pub record Refused (p : Pool) (size : ℕ) (m : Malloc) (r : Ptr × Pool) : Type 0 where
  pub same : r ≡ (null, p)
  pub why : (size ≡ 0) ⊎ ((n : ℕ) × ((m n).at ≡ null))

abbrev pub IsAlloc : Pool → ℕ → Malloc → Ptr × Pool → Type 0
IsAlloc p size m (a, p') = Refused p size m (a, p') ⊎ Served p size a p'

module _ (p : Pool) (frees : ℕ → List Ptr) (is : IsPool p frees) (sized : IsSized p) (size : ℕ)
    (m : Malloc) (malloc : IsMalloc p.heap m) where
  alloc_large-IsAlloc :
      size + header_size < 2 ^ 64
      → BestFit p size p.n
      → (r : Ptr × Pool) × (alloc_large p size (m (asked size)) ≡ some r) × IsAlloc p size m r
  unfolding alloc_large
  alloc_large-IsAlloc small best = elim (Bool-cases ((m (asked size)).at == null)) [
    | inl no_memory ↦
        rw no_memory
          ((null, p), refl, inl (record { same = refl; why = inr (asked size, ground arith) }))
    | inr got ↦
        let ne : (m (asked size)).at ≢ null = ground arith in
        let (no_wrap, same) = asked_fits size small in
        rw (got, no_wrap)
          (
            _,
            refl,
            inr (
                fresh-Served p frees is size (m (asked size)) ne (malloc.unused (asked size) ne) p.n
                  p.used (inr refl) (omega (arith, malloc.length_mem (asked size) ne, same)) best),
          )
  ]

  module _ (i : ℕ) (l : i < p.n) (best : BestFit p size i) where
    abbrev f : Field
    f = get_or p.f i (mk_field 0 null)

    alloc_field_new :
        f.header ≡ null
        → (r : Ptr × Pool) × (alloc_field p i (m (asked f.size)) f ≡ some r) × IsAlloc p size m r
    unfolding alloc_field
    alloc_field_new none_free =
        let no_header : (f.header == null) ≡ true = ground arith in
        elim (Bool-cases ((m (asked f.size)).at == null)) [
          | inl no_memory ↦
              rw (no_header, no_memory)
                (
                  (null, p),
                  refl,
                  inl (record { same = refl; why = inr (asked f.size, ground arith) }),
                )
          | inr got ↦
              let ne : (m (asked f.size)).at ≢ null = ground arith in
              let (no_wrap, same) = asked_fits f.size (sized.room i l) in
              let size_mem : length (m (asked f.size)).mem ≡ f.size =
                malloc.length_mem (asked f.size) ne ∙ same in
              rw (no_header, got, no_wrap)
                (
                  _,
                  refl,
                  inr (
                      fresh-Served p frees is size (m (asked f.size)) ne
                        (malloc.unused (asked f.size) ne) i (add_int p.used f.size)
                        (inl (l, size_mem)) (rw size_mem (best.fits l)) best),
                )
        ]

    alloc_field_pop :
        (xs : List Ptr)
        → frees i ≡ xs
        → IsChain p.heap f.size f.header xs
        → f.header ≢ null
        → (r : Ptr × Pool) × (alloc_field p i (m (asked f.size)) f ≡ some r) × IsAlloc p size m r
    unfolding alloc_field
    alloc_field_pop [] free ch ne = absurd (ne ch)
    alloc_field_pop (x ∷ xs) free (q, d, e, nn, nd, cell, len, rest) ne =
        let some_header : (f.header == null) ≡ false = ground arith in
        let free' : frees i ≡ f.header ∷ xs = rw e free in
        let cell' : p.heap f.header ≡ some (block (next q) d) = rw e cell in
        let nd' : has f.header xs ≡ false = rw e nd in
        rw (some_header, cell')
          (
            _,
            refl,
            inr (
                pop-Served p frees is size i l best f.header xs q d free' ne nd' cell' len rest
                  (sub_int p.empty f.size) (add_int p.used f.size)),
          )

  alloc_field-IsAlloc :
      (i : ℕ)
      → (l : i < p.n) → BestFit p size i
      → (r : Ptr × Pool) × (alloc_field p i
            (m (asked (size_at p.f i)))
            (get_or p.f i (mk_field 0 null))
          ≡ some r)
        × IsAlloc p size m r
  alloc_field-IsAlloc i l best = elim (Bool-cases (header_at p.f i == null)) [
    | inl none_free ↦ alloc_field_new i l best (ground arith)
    | inr some_free ↦ alloc_field_pop i l best (frees i) refl (is.chain i l) (ground arith)
  ]

  -- On a well-formed pool of at most 255 fields, whose sizes leave room for the header of a block
  -- in a `size_t`, with a `malloc` that returns the bytes asked for at an address not in use, and
  -- for a size that fits a `size_t` with the header of a block, `memp_alloc` never faults: it
  -- refuses only size 0 or for want of memory, and changes nothing then; otherwise the block it
  -- returns was not in use, has at least the bytes asked for, belongs to the best fitting field,
  -- all else in memory is as before, the sizes and the number of the fields too, and the pool stays
  -- well formed.
  pub memp_alloc-IsAlloc :
      size + header_size < 2 ^ 64
      → (r : Ptr × Pool) × (memp_alloc p size m ≡ some r) × IsAlloc p size m r
  unfolding memp_alloc
  memp_alloc-IsAlloc small = elim (Bool-cases (size == 0)) [
    | inl no_size ↦
        rw no_size ((null, p), refl, inl (record { same = refl; why = inl (ground arith) }))
    | inr some_size ↦
        let (i, picked, best) = pick-BestFit p frees is sized size (omega arith) in
        rw (some_size, picked)
          (elim (Bool-cases (leb p.n i)) [
            | inl none_fits ↦
                let e : i ≡ p.n = ground (arith, best.bound) in
                rw none_fits (alloc_large-IsAlloc small (rw e at best))
            | inr fits ↦
                let l : i < p.n = ground arith in
                rw (fits, get_elem?-eq-get_or p.f i (mk_field 0 null) (omega (arith, l, is.size)))
                  (alloc_field-IsAlloc i l best)
          ])
  ]
