-- ===== src/Buddy/Free.antt =====
-- c/src/mem_buddy.c: `buddy_free` and the values of the nodes.
use artorias.Prelude.{
  ℕ, zero, suc, ◌+◌, ◌-◌, ◌/◌, ◌^◌, ◌≤◌, ◌<◌, ◌≡◌, ◌≢◌, refl, sym, ap, subst, ◌∙◌, ◌⊎◌, inl, inr,
  Option, none, some, List, [], ◌∷◌, ◌==◌, leb, arith, Bool-cases, get_elem?, set, length,
  length-set, get_elem?-eq-get_or, ◌*◌,
}
use artorias.Buddy.{
  Buddy, Result, value, fault, no_fuel, ◌>>=◌, parent, left_child, right_child, load, find_used,
  joined, join_up, free_at, buddy_free, buddy_size,
}
use artorias.Buddy.Height.{
  IsAt, IsAt-root, IsAt-parent, IsAt-leaf, IsAt-unique, IsAt-below, left, right,
}

-- A result is a value, and has `P`.
abbrev pub Returns : {A : Type 0} → (A → Type 0) → Result A → Type 0
Returns P (value a) = P a
Returns P fault = ⊥
Returns P no_fuel = ⊥

pub Returns-bind :
    {A B : Type 0} (P : A → Type 0) (Q : B → Type 0) (r : Result A) (f : A → Result B)
    → Returns P r
    → ((a : A) → P a → Returns Q (f a))
    → Returns Q (r >>= f)
Returns-bind P Q (value a) f h next = next a h
Returns-bind P Q fault f h next = h
Returns-bind P Q no_fuel f h next = h

load-Returns :
    (xs : List ℕ) (i : ℕ) → i < length xs → Returns (λ v. get_elem? xs i ≡ some v) (load xs i)
unfolding load
load-Returns xs i lt = rw (load, get_elem?-eq-get_or xs i 0 lt) refl

-- A read after a write.
get_elem?-set :
    (xs : List ℕ) (i j v u : ℕ)
    → get_elem? (set xs i v) j ≡ some u
    → ((j ≡ i) × (u ≡ v)) ⊎ ((j ≢ i) × (get_elem? xs j ≡ some u))
get_elem?-set [] i j v u e = cc
get_elem?-set (x ∷ xs) zero zero v u e = inl (refl, ground arith)
get_elem?-set (x ∷ xs) zero (suc j) v u e = inr (λ q. omega arith, e)
get_elem?-set (x ∷ xs) (suc i) zero v u e = inr (λ q. omega arith, e)
get_elem?-set (x ∷ xs) (suc i) (suc j) v u e = elim (get_elem?-set xs i j v u e) [
  | inl (here, same) ↦ inl (ap suc here, same)
  | inr (apart, away) ↦ inr (λ q. apart (omega arith), away)
]

module _ (logn : ℕ) where
  -- The array has its nodes, and none says more than the height of its tree plus one.
  pub record IsBounded (xs : List ℕ) : Type 0 where
    pub full : length xs ≡ 2 * 2 ^ logn - 1
    pub small : (j k v : ℕ) → IsAt logn (suc j) k → get_elem? xs j ≡ some v → v ≤ suc k

  pub node-Returns :
      (xs : List ℕ) (i k : ℕ)
      → IsBounded xs
      → IsAt logn (suc i) k
      → Returns (λ v. get_elem? xs i ≡ some v) (load xs i)
  node-Returns xs i k bounded at =
      let (le, lt) = IsAt-below logn (suc i) k at in
      let inside : i < length xs = omega (arith, bounded.full) in load-Returns xs i inside

  pub IsBounded-set :
      (xs : List ℕ) (i k v : ℕ)
      → IsBounded xs
      → IsAt logn (suc i) k
      → v ≤ suc k
      → IsBounded (set xs i v)
  IsBounded-set xs i k v bounded at le = record {
    full = length-set xs i v ∙ bounded.full;
    small = λ j h u at_j e. elim (get_elem?-set xs i j v u e) [
      | inl (here, same) ↦
          let at_i : IsAt logn (suc i) h = subst (λ m. IsAt logn (suc m) h) here at_j in
          omega (arith, IsAt-unique logn (suc i) k h at at_i, same)
      | inr (apart, away) ↦ bounded.small j h u at_j away
    ];
  }

  -- The root does not say that the whole is free.
  abbrev pub IsSplit : List ℕ → Type 0
  IsSplit xs = (v : ℕ) → get_elem? xs 0 ≡ some v → v ≤ logn

  pub at_parent :
      (index k : ℕ) → index ≢ 0 → IsAt logn (suc index) k → IsAt logn (suc (parent index)) (suc k)
  at_parent index k up at =
      let e : suc index / 2 ≡ suc (parent index) = omega arith in
      subst (λ m. IsAt logn m (suc k)) e (IsAt-parent logn (suc index) k at (omega arith))

  joined_le : (k l r : ℕ) → l ≤ suc k → r ≤ suc k → joined (suc k + 1) l r ≤ suc k
  joined_le k l r hl hr = ground arith

  root_le : (i k u : ℕ) (xs : List ℕ) → IsAt logn (suc i) k → u ≤ k → i ≡ 0 → IsSplit (set xs i u)
  root_le i k u xs at le z v e = elim (get_elem?-set xs i 0 u v e) [
    | inl (here, same) ↦
        let whole : k ≡ logn = IsAt-root logn k (subst (λ m. IsAt logn (suc m) k) z at) in
        omega arith
    | inr (apart, away) ↦ absurd (apart (sym z))
  ]

  join_up-IsSplit :
      (fuel index k n : ℕ) (xs : List ℕ)
      → n ≡ suc k
      → IsAt logn (suc index) k
      → IsBounded xs
      → (index ≡ 0 → IsSplit xs)
      → logn < fuel + k
      → Returns (λ ys. IsBounded ys × IsSplit ys) (join_up fuel index n xs)
  unfolding join_up
  join_up-IsSplit zero index k n xs e at bounded root enough =
      let (le, lt) = IsAt-below logn (suc index) k at in absurd (omega arith)
  join_up-IsSplit (suc fuel) index k n xs e at bounded root enough =
      elim (Bool-cases (index == 0)) [
        | inl here ↦ let z : index ≡ 0 = ground arith in rw here (bounded, root z)
        | inr up ↦
            let there : index ≢ 0 = λ z. ground arith in
            let at_p : IsAt logn (suc (parent index)) (suc k) = at_parent index k there at in
            let at_l : IsAt logn (suc (left_child (parent index))) k =
              left (suc (parent index)) (omega arith) at_p in
            let at_r : IsAt logn (suc (right_child (parent index))) k =
              right (suc (parent index)) (omega arith) at_p in
            rw up (
              Returns-bind _ _ (load xs (left_child (parent index))) _
                (node-Returns xs _ k bounded at_l)
                (λ l el.
                  Returns-bind _ _ (load xs (right_child (parent index))) _
                    (node-Returns xs _ k bounded at_r)
                    (λ r er.
                      let small : joined (n + 1) l r ≤ suc k = rw e (
                        joined_le k l r (bounded.small _ k l at_l el)
                          (bounded.small _ k r at_r er)) in
                      join_up-IsSplit fuel (parent index) (suc k) (n + 1)
                        (set xs (parent index) (joined (n + 1) l r)) (omega arith) at_p
                        (IsBounded-set xs (parent index) (suc k) (joined (n + 1) l r) bounded at_p
                          (omega arith))
                        (root_le (parent index) (suc k) (joined (n + 1) l r) xs at_p small)
                        (omega arith))))
      ]

  -- Where the first loop stops, there is a node in use, and `node_logn` is its height plus one.
  abbrev Stopped : List ℕ → Option (ℕ × ℕ) → Type 0
  Stopped xs none = Unit
  Stopped xs (some (index, n)) =
      (get_elem? xs index ≡ some 0) × ((k : ℕ) × (n ≡ suc k) × IsAt logn (suc index) k)

  find_used-Stopped :
      (fuel index k n : ℕ) (xs : List ℕ)
      → n ≡ suc k
      → IsAt logn (suc index) k
      → IsBounded xs
      → logn < fuel + k
      → Returns (Stopped xs) (find_used fuel xs index n)
  unfolding find_used
  find_used-Stopped zero index k n xs e at bounded enough =
      let (le, lt) = IsAt-below logn (suc index) k at in absurd (omega arith)
  find_used-Stopped (suc fuel) index k n xs e at bounded enough =
      Returns-bind _ _ (load xs index) _ (node-Returns xs index k bounded at) (λ v ev.
        elim (Bool-cases (v == 0)) [
          | inl used ↦ let z : v ≡ 0 = ground arith in rw used (ev ∙ ap some z, (k, e, at))
          | inr free ↦ elim (Bool-cases (index == 0)) [
            | inl here ↦ rw (free, here) tt
            | inr up ↦
                let there : index ≢ 0 = λ z. ground arith in
                rw (free, up)
                  (find_used-Stopped fuel (parent index) (suc k) (n + 1) xs (omega arith)
                    (at_parent index k there at) bounded (omega arith))
          ]
        ])

-- Let the array of a buddy allocator have its nodes, none of them with a value above its height
-- plus one, and let the root's value be above 0 and below that of a whole that is free. With more
-- fuel than `logn`, `buddy_free` of any offset returns without leaving the array, and it is so
-- again: no value is above its bound, and the root does not say that the whole is free.
pub buddy_free-IsSplit :
    (fuel : ℕ) (b : Buddy) (offset w : ℕ)
    → IsBounded b.logn b.longest
    → get_elem? b.longest 0 ≡ some w
    → w ≢ 0
    → w ≤ b.logn
    → b.logn < fuel
    → Returns
        (λ b'. (b'.logn ≡ b.logn) × IsBounded b.logn b'.longest × IsSplit b.logn b'.longest)
        (buddy_free fuel b offset)
unfolding buddy_free
buddy_free-IsSplit fuel b offset w bounded root some_free split enough =
    elim (Bool-cases (leb (buddy_size b) offset)) [
      | inl beyond ↦ rw beyond same
      | inr inside ↦
          let lt : offset < 2 ^ b.logn = ground arith in
          let e : offset + 2 ^ b.logn ≡ suc (offset + 2 ^ b.logn - 1) = omega arith in
          let leaf : IsAt b.logn (suc (offset + 2 ^ b.logn - 1)) 0 =
            subst (λ m. IsAt b.logn m 0) e (IsAt-leaf b.logn offset lt) in
          rw inside (
            Returns-bind _ _ (find_used fuel b.longest (offset + buddy_size b - 1) 1) _
              (find_used-Stopped b.logn fuel (offset + 2 ^ b.logn - 1) 0 1 b.longest refl leaf
                bounded (omega arith))
              freed)
    ]
  where
    same : (b.logn ≡ b.logn) × IsBounded b.logn b.longest × IsSplit b.logn b.longest
    same = (
      refl,
      bounded,
      λ v e. let j : some w ≡ some v = sym root ∙ e in let q : w ≡ v = ground arith in omega arith,
    )

    freed :
        (o : Option (ℕ × ℕ))
        → Stopped b.logn b.longest o
        → Returns
            (λ b'. (b'.logn ≡ b.logn) × IsBounded b.logn b'.longest × IsSplit b.logn b'.longest)
            (free_at fuel b o)
    freed none h = same
    freed (some (index, n)) (used, (k, e, at)) =
        Returns-bind _ _ (join_up fuel index n (set b.longest index n)) _
          (join_up-IsSplit b.logn fuel index k n (set b.longest index n) e at
            (IsBounded-set b.logn b.longest index k n bounded at (omega arith))
            (λ z. absurd (
              some_free (
                let j : some w ≡ some 0 = sym root ∙ ap (get_elem? b.longest) (sym z) ∙ used in
                ground arith)))
            (omega arith))
          (λ ys h. (refl, h.0, h.1))
