-- ===== src/BinarySearch/Laws.antt =====
-- c/src/utils.h: `binary_search` ends, and splits a sorted array at the key.
use artorias.Prelude.{
  ℕ, zero, suc, ◌+◌, ◌-◌, ◌/◌, ◌^◌, false, leb, ◌≤◌, ◌<◌, ◌≡◌, refl, some, arith, ltb, ◌==◌, ◌⊎◌,
  inl, inr, Bool-cases,
}
use artorias.BinarySearch.{search_loop, binary_search}

abbrev pub IsSorted : (ℕ → ℕ) → ℕ → Type 0
IsSorted size n = (i j : ℕ) → i ≤ j → j < n → size i ≤ size j

-- What the result `i` says of the key: everything before it is less than the key, or the key
-- stands at `i`, and nothing behind it is less. It is an index, or everything is less.
pub record Splits (size : ℕ → ℕ) (n key i : ℕ) : Type 0 where
  pub bound : i ≤ n
  pub index : 0 < n → (i < n) ⊎ ((j : ℕ) → j < n → size j < key)
  pub before : (j : ℕ) → j < i → j < n → (size j < key) ⊎ (size i ≡ key)
  pub behind : (j : ℕ) → i < j → j < n → key ≤ size j

module _ (size : ℕ → ℕ) (n key : ℕ) (few : n ≤ 2 ^ 30) (sorted : IsSorted size n) where
  search_loop-Splits :
      (fuel left hi : ℕ)
      → hi ≤ n
      → left ≤ n
      → hi < left + fuel
      → left ≤ hi
      → ((j : ℕ) → j < left → j < n → size j < key)
      → ((j : ℕ) → hi ≤ j → j < n → key < size j)
      → (i : ℕ) × (search_loop (λ m. size m == key) (λ m. ltb (size m) key) fuel left hi ≡ some i)
        × Splits size n key i
  unfolding search_loop
  search_loop-Splits zero left hi h h' f o lo up = absurd (omega arith)
  search_loop-Splits (suc fuel) left hi h h' f o lo up = elim (Bool-cases (ltb (left + 1) hi)) [
    | inr done ↦ rw done (
      left,
      refl,
      record {
        bound = h';
        index = λ some_n. elim (Bool-cases (ltb left n)) [
          | inl inside ↦ inl (ground arith)
          | inr past ↦ inr (λ j l. lo j (ground arith) l)
        ];
        before = λ j l l'. inl (lo j l l');
        behind = λ j l l'. omega (arith, up j (ground arith) l');
      },
    )
    | inl go ↦
        let fits : leb (2 ^ 31) (left + (hi - 1)) ≡ false = ground arith in
        rw (go, fits)
          (let mid = (left + (hi - 1)) / 2 in
            elim (Bool-cases (size mid == key)) [
              | inl found ↦ rw found (
                mid,
                refl,
                record {
                  bound = ground arith;
                  index = λ _. inl (ground arith);
                  before = λ j l l'. inr (ground arith);
                  behind = λ j l l'. ground (arith, sorted mid j (omega arith) l');
                },
              )
              | inr other ↦ rw other (elim (Bool-cases (ltb (size mid) key)) [
                | inl less ↦ rw less (
                    search_loop-Splits fuel (mid + 1) hi h (ground arith) (ground arith)
                      (ground arith)
                      (λ j l l'. ground (arith, sorted j mid (omega arith) (ground arith))) up)
                | inr more ↦ rw more (
                    search_loop-Splits fuel left mid (ground arith) h' (ground arith) (ground arith)
                      lo (λ j l l'. ground (arith, sorted mid j (omega arith) l')))
              ])
            ])
  ]

-- On a sorted array of at most 2^30 elements, `binary_search` ends, without an overflow of an
-- `int`, and its result splits the array at the key: what stands before it is less unless the key
-- stands at it, what stands behind it is not less, and it is an index unless everything is less or
-- the array is empty.
pub binary_search-Splits :
    (size : ℕ → ℕ) (n key : ℕ)
    → n ≤ 2 ^ 30
    → IsSorted size n
    → (i : ℕ) × (binary_search (λ m. size m == key) (λ m. ltb (size m) key) n ≡ some i)
      × Splits size n key i
unfolding binary_search
binary_search-Splits size n key few sorted =
    let fits : ltb (2 ^ 31) n ≡ false = ground arith in
    rw fits (
      search_loop-Splits size n key few sorted (n + 1) 0 n (omega arith) (omega arith) (omega arith)
        (omega arith) (λ j l. absurd (omega arith)) (λ j l l'. absurd (omega arith)))
