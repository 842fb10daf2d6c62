-- ===== src/MemPool/Fresh.antt =====
-- c/src/mem_pool.c: `memp_new` sorts the sizes and returns a well-formed pool.
use artorias.Prelude.{
  ℕ, zero, suc, ◌+◌, ◌-◌, ◌%◌, ◌^◌, ◌≤◌, ◌<◌, ◌≡◌, refl, ap, ◌∙◌, inl, inr, true, false, none, some,
  List, [], ◌∷◌, arith, ltb, if◌then◌else◌, length, get_or, Bool-cases,
}
use mathlib.Core.List.{Perm}
use mathlib.Core.List.Perm
use artorias.MemPool.{
  Ptr, null, Heap, Pool, size_max, size_at, header_at, sink, sort_rounds, fields_of, memp_new,
}
use artorias.MemPool.Chain.{IsPool}

abbrev pub All : (ℕ → Type 0) → List ℕ → Type 0
All P [] = Unit
All P (x ∷ xs) = P x × All P xs

abbrev pub IsAscending : List ℕ → Type 0
IsAscending [] = Unit
IsAscending (x ∷ xs) = All (λ y. x ≤ y) xs × IsAscending xs

All-mono : (P Q : ℕ → Type 0) (xs : List ℕ) → ((x : ℕ) → P x → Q x) → All P xs → All Q xs
All-mono P Q [] f a = tt
All-mono P Q (x ∷ xs) f (p, a) = (f x p, All-mono P Q xs f a)

All-sink :
    (P : ℕ → Type 0) (x : ℕ) (xs : List ℕ) → P x → All P xs → P (sink x xs).0 × All P (sink x xs).1
unfolding sink
All-sink P x [] p a = (p, tt)
All-sink P x (y ∷ ys) p (q, a) = elim (Bool-cases (ltb y x)) [
  | inl less ↦ rw less (let r = All-sink P y ys q a in (r.0, (p, r.1)))
  | inr more ↦ rw more (let r = All-sink P x ys p a in (r.0, (q, r.1)))
]

All-sort_rounds : (P : ℕ → Type 0) (i : ℕ) (xs : List ℕ) → All P xs → All P (sort_rounds i xs)
unfolding sort_rounds
All-sort_rounds P zero xs a = a
All-sort_rounds P (suc i) [] a = tt
All-sort_rounds P (suc i) (x ∷ xs) (p, a) =
    let r = All-sink P x xs p a in (r.0, All-sort_rounds P i (sink x xs).1 r.1)

-- A round brings the least size to the front.
sink-least :
    (x : ℕ) (xs : List ℕ) (m : ℕ) → m ≡ (sink x xs).0 → (m ≤ x) × All (λ y. m ≤ y) (sink x xs).1
unfolding sink
sink-least x [] m e = (omega arith, tt)
sink-least x (y ∷ ys) m e = elim (Bool-cases (ltb y x)) [
  | inl less ↦
      let e' : m ≡ (sink y ys).0 = rw less at e in
      rw less (let r = sink-least y ys m e' in (ground (arith, r), (ground (arith, r), r.1)))
  | inr more ↦
      let e' : m ≡ (sink x ys).0 = rw more at e in
      rw more (let r = sink-least x ys m e' in (r.0, (ground (arith, r), r.1)))
]

length-sink : (x : ℕ) (xs : List ℕ) → length (sink x xs).1 ≡ length xs
unfolding sink
length-sink x [] = refl
length-sink x (y ∷ ys) = ap suc (length-sink (if ltb y x then y else x) ys)

sink-Perm : (x : ℕ) (xs : List ℕ) → Perm ((sink x xs).0 ∷ (sink x xs).1) (x ∷ xs)
unfolding sink
sink-Perm x [] = Perm.refl (x ∷ [])
sink-Perm x (y ∷ ys) = elim (Bool-cases (ltb y x)) [
  | inl less ↦
      rw less (Perm.trans (Perm.swap x (sink y ys).0 (sink y ys).1) (Perm.cons x (sink-Perm y ys)))
  | inr more ↦ rw more (
      Perm.trans (Perm.swap y (sink x ys).0 (sink x ys).1)
        (Perm.trans (Perm.cons y (sink-Perm x ys)) (Perm.swap x y ys)))
]

sort_rounds-IsAscending : (i : ℕ) (xs : List ℕ) → length xs ≤ i + 1 → IsAscending (sort_rounds i xs)
unfolding sort_rounds
sort_rounds-IsAscending zero [] h = tt
sort_rounds-IsAscending zero (x ∷ []) h = (tt, tt)
sort_rounds-IsAscending zero (x ∷ (y ∷ ys)) h = absurd (omega arith)
sort_rounds-IsAscending (suc i) [] h = tt
sort_rounds-IsAscending (suc i) (x ∷ xs) h = (
  All-sort_rounds (λ y. (sink x xs).0 ≤ y) i (sink x xs).1 (sink-least x xs (sink x xs).0 refl).1,
  sort_rounds-IsAscending i (sink x xs).1 (omega (arith, length-sink x xs)),
)

sort_rounds-Perm : (i : ℕ) (xs : List ℕ) → Perm (sort_rounds i xs) xs
unfolding sort_rounds
sort_rounds-Perm zero xs = Perm.refl xs
sort_rounds-Perm (suc i) [] = Perm.refl []
sort_rounds-Perm (suc i) (x ∷ xs) =
    Perm.trans (Perm.cons (sink x xs).0 (sort_rounds-Perm i (sink x xs).1)) (sink-Perm x xs)

All-get_or : (P : ℕ → Type 0) (xs : List ℕ) (i : ℕ) → All P xs → i < length xs → P (get_or xs i 0)
All-get_or P [] i a h = absurd (omega arith)
All-get_or P (x ∷ xs) zero (p, a) h = p
All-get_or P (x ∷ xs) (suc i) (p, a) h = All-get_or P xs i a (omega arith)

get_or-ascending :
    (xs : List ℕ) (i j : ℕ) → IsAscending xs → i ≤ j → j < length xs → get_or xs i 0 ≤ get_or xs j 0
get_or-ascending [] i j s le h = absurd (omega arith)
get_or-ascending (x ∷ xs) zero zero s le h = omega arith
get_or-ascending (x ∷ xs) zero (suc j) (a, s) le h = All-get_or (λ y. x ≤ y) xs j a (omega arith)
get_or-ascending (x ∷ xs) (suc i) zero s le h = absurd (omega arith)
get_or-ascending (x ∷ xs) (suc i) (suc j) (a, s) le h =
    get_or-ascending xs i j s (omega arith) (omega arith)

length-sort_rounds : (i : ℕ) (xs : List ℕ) → length (sort_rounds i xs) ≡ length xs
unfolding sort_rounds
length-sort_rounds zero xs = refl
length-sort_rounds (suc i) [] = refl
length-sort_rounds (suc i) (x ∷ xs) = ap suc (length-sort_rounds i (sink x xs).1 ∙ length-sink x xs)

length-fields_of : (xs : List ℕ) → length (fields_of xs) ≡ length xs + 1
unfolding fields_of
length-fields_of [] = refl
length-fields_of (x ∷ xs) = omega (arith, length-fields_of xs)

size_at-fields_of : (xs : List ℕ) (i : ℕ) → i < length xs → size_at (fields_of xs) i ≡ get_or xs i 0
unfolding fields_of
size_at-fields_of [] i h = absurd (omega arith)
size_at-fields_of (x ∷ xs) zero h = refl
size_at-fields_of (x ∷ xs) (suc i) h = size_at-fields_of xs i (omega arith)

size_at-fields_of_end : (xs : List ℕ) → size_at (fields_of xs) (length xs) ≡ size_max
unfolding fields_of
size_at-fields_of_end [] = refl
size_at-fields_of_end (x ∷ xs) = size_at-fields_of_end xs

header_at-fields_of : (xs : List ℕ) (i : ℕ) → header_at (fields_of xs) i ≡ null
unfolding fields_of
header_at-fields_of [] zero = refl
header_at-fields_of [] (suc i) = refl
header_at-fields_of (x ∷ xs) zero = refl
header_at-fields_of (x ∷ xs) (suc i) = header_at-fields_of xs i

-- From 1 to 255 sizes below the largest `size_t`, with no block in memory and where `malloc` does
-- not fail, `memp_new` returns a well-formed pool whose free lists are empty; the sizes of its
-- fields are those given, in ascending order, and one field for larger blocks.
pub memp_new-IsPool :
    (fsize : List ℕ) (h : Heap)
    → 0 < length fsize
    → length fsize < 256
    → All (λ x. x < size_max) fsize
    → ((a : Ptr) → h a ≡ none)
    → (p : Pool) × (memp_new fsize true h ≡ some p)
      × IsPool p (λ _. [])
      × ((sizes : List ℕ) × Perm sizes fsize × IsAscending sizes × (p.f ≡ fields_of sizes))
unfolding memp_new
memp_new-IsPool fsize h some_n few small unused =
    let rounds = length fsize - 1 in
    let sizes = sort_rounds rounds fsize in
    let asc : IsAscending sizes = sort_rounds-IsAscending rounds fsize (omega arith) in
    let len : length sizes ≡ length fsize = length-sort_rounds rounds fsize in
    let all_small : All (λ x. x < size_max) sizes =
      All-sort_rounds (λ x. x < size_max) rounds fsize small in
    let n : length fsize % 2 ^ 8 ≡ length sizes = omega arith in
    let go : ltb (length fsize) 1 ≡ false = ground arith in
    rw go (
      _,
      refl,
      record {
        some_n = omega arith;
        size = omega (arith, length-fields_of sizes);
        sorted = λ i j le lt.
            rw (size_at-fields_of sizes i (omega arith), size_at-fields_of sizes j (omega arith))
              (get_or-ascending sizes i j asc le (omega arith));
        fixed = λ k lt.
            rw (size_at-fields_of sizes k (omega arith))
              (All-get_or (λ x. x < size_max) sizes k all_small (omega arith));
        large = rw n (size_at-fields_of_end sizes);
        chain = λ k lt. header_at-fields_of sizes k;
        apart = λ j k a lj lk mj mk. cc;
        live = λ a k d e. cc (unused a);
        no_null = unused null;
      },
      (sizes, sort_rounds-Perm rounds fsize, asc, refl),
    )
