-- ===== src/MemPool/Pick.antt =====
-- c/src/mem_pool.c: the field that `memp_alloc` picks.
use artorias.Prelude.{
  ℕ, ◌+◌, ◌≤◌, ◌<◌, ◌^◌, ◌≡◌, refl, ◌⊎◌, inl, inr, some, List, arith, ltb, get_elem?-eq-get_or,
  Bool-cases,
}
use artorias.BinarySearch.Laws.{Splits, binary_search-Splits}
use artorias.MemPool.{Ptr, null, mk_field, Pool, header_size, size_max, size_at, pick}
use artorias.MemPool.Chain.{IsPool}

-- The sizes of the fields leave room for the header of a block in a `size_t`, and their number is a
-- byte.
pub record IsSized (p : Pool) : Type 0 where
  pub few : p.n < 2 ^ 8
  pub room : (k : ℕ) → k < p.n → size_at p.f k + header_size < 2 ^ 64

-- `i` is the smallest field that fits `size`, or `n` if none does.
pub record BestFit (p : Pool) (size i : ℕ) : Type 0 where
  pub bound : i ≤ p.n
  pub fits : i < p.n → size ≤ size_at p.f i
  pub best : (j : ℕ) → j < p.n → size ≤ size_at p.f j → (i < p.n) × (size_at p.f i ≤ size_at p.f j)

module _ (p : Pool) (frees : ℕ → List Ptr) (is : IsPool p frees) (sized : IsSized p) where
  -- On a well-formed pool of at most 255 fields, for a size below the largest `size_t`, the index that `memp_alloc` looks
  -- up is found, and is that of a smallest field that fits, or `n` if none fits.
  pub pick-BestFit :
      (size : ℕ) → size < size_max → (i : ℕ) × (pick p size ≡ some i) × BestFit p size i
  unfolding pick
  pick-BestFit size small =
      let (i, found, s) =
        binary_search-Splits (size_at p.f) p.n size (omega (arith, sized.few)) is.sorted in
      let read = get_elem?-eq-get_or p.f i (mk_field 0 null) (omega (arith, s.bound, is.size)) in
      elim (Bool-cases (ltb (size_at p.f i) size)) [
        | inl less ↦
            let i_lt : i < p.n = ground (arith, s.bound, is.large) in
            (
              i + 1,
              rw (found, read, less) refl,
              record {
                bound = ground (arith, s.bound, is.large);
                fits = λ l. s.behind (i + 1) (omega arith) l;
                best = λ j l h.
                    let after : i < j = over i j l i_lt (ground arith) h in
                    (omega arith, is.sorted (i + 1) j (omega arith) l);
              },
            )
        | inr enough ↦ (
          i,
          rw (found, read, enough) refl,
          record {
            bound = s.bound;
            fits = λ l. ground arith;
            best = λ j l h. (inside i j l h s, least i j l h (ground arith) s);
          },
        )
      ]
    where
      over : (i j : ℕ) → j < p.n → i < p.n → size_at p.f i < size → size ≤ size_at p.f j → i < j
      over i j l l' less h = elim (Bool-cases (ltb i j)) [
        | inl lt ↦ ground arith
        | inr ge ↦ absurd (omega (arith, is.sorted j i (ground arith) l'))
      ]

      inside :
          (i j : ℕ) → j < p.n → size ≤ size_at p.f j → Splits (size_at p.f) p.n size i → i < p.n
      inside i j l h s = inside_of i (s.index (omega arith))
        where
          inside_of : (i : ℕ) → (i < p.n) ⊎ ((j : ℕ) → j < p.n → size_at p.f j < size) → i < p.n
          inside_of i (inl a) = a
          inside_of i (inr a) = absurd (omega (arith, a j l))

      least :
          (i j : ℕ)
          → j < p.n
          → size ≤ size_at p.f j
          → size ≤ size_at p.f i
          → Splits (size_at p.f) p.n size i
          → size_at p.f i ≤ size_at p.f j
      least i j l h e s = elim (Bool-cases (ltb j i)) [
        | inl lt ↦ ground (arith, s.before j (ground arith) l)
        | inr ge ↦ is.sorted i j (ground arith) l
      ]
