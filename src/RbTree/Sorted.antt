-- ===== src/RbTree/Sorted.antt =====
-- c/src/rb_tree.h: the order of the nodes of a tree, by the numbers `key` that the comparison of
-- `rb_tree_insert` compares.
use artorias.Prelude.{
  ℕ, ◌≤◌, ◌≡◌, refl, inl, inr, Bool, true, false, List, [], ◌∷◌, ◌++◌, arith, ltb, if◌then◌else◌,
  Bool-cases,
}
use artorias.RbTree.Store.{Ptr}
use artorias.RbTree.Shape.{Tree, leaf, node, inorder}
use artorias.RbTree.Link.{grow}

abbrev pub All : (Ptr → Type 0) → List Ptr → Type 0
All P [] = Unit
All P (x ∷ xs) = P x × All P xs

module _ (key : Ptr → ℕ) where
  abbrev pub IsSorted : List Ptr → Type 0
  IsSorted [] = Unit
  IsSorted (x ∷ xs) = All (λ y. key x ≤ key y) xs × IsSorted xs

  abbrev pub less : Ptr → Ptr → Bool
  less n p = ltb (key n) (key p)

  -- Before the first node with a greater key.
  abbrev pub insert : Ptr → List Ptr → List Ptr
  insert n [] = n ∷ []
  insert n (x ∷ xs) = let rest = insert n xs in if less n x then n ∷ (x ∷ xs) else x ∷ rest

  All-append_left : (P : Ptr → Type 0) (xs ys : List Ptr) → All P (xs ++ ys) → All P xs
  All-append_left P [] ys h = tt
  All-append_left P (x ∷ xs) ys (p, h) = (p, All-append_left P xs ys h)

  pub All-append_right : (P : Ptr → Type 0) (xs ys : List Ptr) → All P (xs ++ ys) → All P ys
  All-append_right P [] ys h = h
  All-append_right P (x ∷ xs) ys (p, h) = All-append_right P xs ys h

  pub IsSorted-append_left : (xs ys : List Ptr) → IsSorted (xs ++ ys) → IsSorted xs
  IsSorted-append_left [] ys h = tt
  IsSorted-append_left (x ∷ xs) ys (above, h) =
      (All-append_left _ xs ys above, IsSorted-append_left xs ys h)

  pub IsSorted-append_right : (xs ys : List Ptr) → IsSorted (xs ++ ys) → IsSorted ys
  IsSorted-append_right [] ys h = h
  IsSorted-append_right (x ∷ xs) ys (above, h) = IsSorted-append_right xs ys h

  insert-less :
      (n a : Ptr) (xs ys : List Ptr)
      → less n a ≡ true
      → insert n (xs ++ (a ∷ ys)) ≡ insert n xs ++ (a ∷ ys)
  insert-less n a [] ys e = rw e
  insert-less n a (x ∷ xs) ys e = elim (Bool-cases (less n x)) [
    | inl l ↦ rw l
    | inr l ↦ rw (l, insert-less n a xs ys e)
  ]

  insert-not_less :
      (n a : Ptr) (xs ys : List Ptr)
      → IsSorted (xs ++ (a ∷ ys))
      → less n a ≡ false
      → insert n (xs ++ (a ∷ ys)) ≡ xs ++ (a ∷ insert n ys)
  insert-not_less n a [] ys h e = rw e
  insert-not_less n a (x ∷ xs) ys (above, h) e =
      let (x_a, more) : All (λ y. key x ≤ key y) (a ∷ ys) = All-append_right _ xs (a ∷ ys) above in
      let l : less n x ≡ false = ground arith in rw (l, insert-not_less n a xs ys h e)

  -- The place to which the comparison leads keeps the order.
  pub inorder-grow :
      (n : Ptr) (t : Tree) → IsSorted (inorder t) → inorder (grow less n t) ≡ insert n (inorder t)
  inorder-grow n leaf h = refl
  inorder-grow n (node l a c r) h = elim (Bool-cases (less n a)) [
    | inl e ↦ rw (
      e,
      inorder-grow n l (IsSorted-append_left (inorder l) _ h),
      insert-less n a (inorder l) (inorder r) e,
    )
    | inr e ↦ rw (
      e,
      inorder-grow n r (IsSorted-append_right (inorder l) (a ∷ inorder r) h).1,
      insert-not_less n a (inorder l) (inorder r) h e,
    )
  ]

  All-insert : (P : Ptr → Type 0) (n : Ptr) (xs : List Ptr) → P n → All P xs → All P (insert n xs)
  All-insert P n [] p h = (p, tt)
  All-insert P n (x ∷ xs) p (q, h) = elim (Bool-cases (less n x)) [
    | inl l ↦ rw l (p, (q, h))
    | inr l ↦ rw l (q, All-insert P n xs p h)
  ]

  All-weaken : (m k : ℕ) (xs : List Ptr) → m ≤ k → All (λ y. k ≤ key y) xs → All (λ y. m ≤ key y) xs
  All-weaken m k [] le h = tt
  All-weaken m k (x ∷ xs) le (p, h) = (omega arith, All-weaken m k xs le h)

  pub insert-IsSorted : (n : Ptr) (xs : List Ptr) → IsSorted xs → IsSorted (insert n xs)
  insert-IsSorted n [] h = (tt, tt)
  insert-IsSorted n (x ∷ xs) (above, h) = elim (Bool-cases (less n x)) [
    | inl l ↦
        let n_x : key n ≤ key x = ground arith in
        rw l ((n_x, All-weaken (key n) (key x) xs n_x above), (above, h))
    | inr l ↦
        let x_n : key x ≤ key n = ground arith in
        rw l (All-insert _ n xs x_n above, insert-IsSorted n xs h)
  ]
