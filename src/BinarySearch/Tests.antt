-- ===== src/BinarySearch/Tests.antt =====
-- c/src/utils.h: `binary_search` on a concrete array.
use artorias.Prelude.{ℕ, ◌*◌, ◌≡◌, some, ltb, ◌==◌, arith}
use artorias.BinarySearch.{binary_search}
use artorias.BinarySearch.Laws.{Splits, binary_search-Splits}

binary_search-Splits_example :
    (i : ℕ) × (binary_search (λ m. m * 8 == 20) (λ m. ltb (m * 8) 20) 5 ≡ some i)
    × Splits (λ m. m * 8) 5 20 i
binary_search-Splits_example =
    binary_search-Splits (λ m. m * 8) 5 20 (omega arith) (λ i j h l. omega arith)
