-- ===== src/RbTree/Search.antt =====
-- c/src/rb_tree.h: `rb_tree_find` in a tree whose nodes stand in the order of their keys.
use artorias.Prelude.{
  ℕ, zero, suc, ◌≤◌, ◌<◌, ◌≡◌, refl, ◌∙◌, ap, ◌≢◌, ◌⊎◌, inl, inr, Bool, false, List, [], ◌∷◌, ◌++◌,
  arith, ◌==◌, ltb, Bool-cases,
}
use artorias.RbTree.Store.{Ptr, null, Store, Run, done, get_root}
use artorias.RbTree.Shape.{Tree, leaf, node, inorder, root_of, Spells}
use artorias.RbTree.Insert.{find_below, rb_tree_find}
use artorias.RbTree.Trail.{load-done, count, Zip}
use artorias.RbTree.Link.{size}
use artorias.RbTree.Sorted.{
  All, IsSorted, All-append_right, IsSorted-append_left, IsSorted-append_right,
}

-- The search ends, changes nothing, and gives a node of the tree that has the key, or NULL where no
-- node of the tree has it.
pub record IsFound (key : Ptr → ℕ) (k : ℕ) (s : Store) (t : Tree) (run : Run Ptr) : Type 0 where
  pub found : Ptr
  pub returns : run ≡ done found s
  pub right :
      ((found ≡ null) × All (λ x. key x ≢ k) (inorder t))
      ⊎ ((0 < count found t) × (key found ≡ k) × (found ≢ null))

module _ (key : Ptr → ℕ) (k : ℕ) where
  abbrev pub has_key : Ptr → Bool
  has_key p = k == key p

  abbrev pub goes_left : Ptr → Bool
  goes_left p = ltb k (key p)

  All-append :
      (P : Ptr → Type 0) (xs : List Ptr) (a : Ptr) (ys : List Ptr)
      → All P xs
      → P a
      → All P ys
      → All P (xs ++ (a ∷ ys))
  All-append P [] a ys hx p hy = (p, hy)
  All-append P (x ∷ xs) a ys (q, hx) p hy = (q, All-append P xs a ys hx p hy)

  above_ne : (xs : List Ptr) (m : ℕ) → k < m → All (λ y. m ≤ key y) xs → All (λ x. key x ≢ k) xs
  above_ne [] m h hx = tt
  above_ne (x ∷ xs) m h (q, hx) = ((λ e. absurd (omega arith)), above_ne xs m h hx)

  below_ne :
      (xs : List Ptr) (a : Ptr) (ys : List Ptr)
      → key a < k
      → IsSorted key (xs ++ (a ∷ ys))
      → All (λ x. key x ≢ k) xs
  below_ne [] a ys h sorted = tt
  below_ne (x ∷ xs) a ys h (above, sorted) =
      let (le, more) : All (λ y. key x ≤ key y) (a ∷ ys) =
        All-append_right key _ xs (a ∷ ys) above in
      ((λ e. absurd (omega arith)), below_ne xs a ys h sorted)

  find_below-IsFound :
      (fuel : ℕ) (s : Store) (parent : Ptr) (t : Tree)
      → Spells s.cell parent t
      → IsSorted key (inorder t)
      → size t < fuel
      → IsFound key k s t (find_below has_key goes_left fuel (root_of t) s)
  unfolding find_below
  find_below-IsFound zero s parent t h sorted enough = absurd (omega arith)
  find_below-IsFound (suc fuel) s parent leaf h sorted enough = record {
    found = null;
    returns = refl;
    right = inl (refl, tt);
  }
  find_below-IsFound (suc fuel) s parent (node l a c r) (ne, cell, hl, hr) sorted enough =
      let not_null : (a == null) ≡ false = ground arith in
      let loaded = load-done a _ s ne cell in
      elim (Bool-cases (has_key a)) [
        | inl e ↦ record {
          found = a;
          returns = rw (not_null, loaded, e);
          right = inr (ground arith, ground arith, ne);
        }
        | inr e ↦ elim (Bool-cases (goes_left a)) [
          | inl less ↦
              let f =
                find_below-IsFound fuel s a l hl
                  (IsSorted-append_left key (inorder l) (a ∷ inorder r) sorted) (omega arith) in
              let (above, right_sorted) =
                IsSorted-append_right key (inorder l) (a ∷ inorder r) sorted in
              let lt : k < key a = ground arith in
              record {
                found = f.found;
                returns = rw (not_null, loaded, e, less) f.returns;
                right = elim f.right [
                  | inl q ↦ inl (
                    q.0,
                    All-append _ (inorder l) a (inorder r) q.1 (λ e'. absurd (omega arith))
                        (above_ne (inorder r) (key a) lt above),
                  )
                  | inr (has, same, found_ne) ↦ inr (omega arith, same, found_ne)
                ];
              }
          | inr more ↦
              let (above, right_sorted) =
                IsSorted-append_right key (inorder l) (a ∷ inorder r) sorted in
              let f = find_below-IsFound fuel s a r hr right_sorted (omega arith) in
              let lt : key a < k = ground arith in
              record {
                found = f.found;
                returns = rw (not_null, loaded, e, more) f.returns;
                right = elim f.right [
                  | inl q ↦ inl (
                    q.0,
                    All-append _ (inorder l) a (inorder r)
                        (below_ne (inorder l) a (inorder r) lt sorted) (λ e'. absurd (omega arith))
                        q.1,
                  )
                  | inr (has, same, found_ne) ↦ inr (omega arith, same, found_ne)
                ];
              }
        ]
      ]

  -- Let the store spell a tree with every address once whose nodes stand in the order of their
  -- keys. With more fuel than the tree has nodes, `rb_tree_find` of a key returns without a bad
  -- access and changes nothing: it gives a node of the tree that has the key, or NULL, and no node
  -- of the tree has it.
  pub rb_tree_find-IsFound :
      (fuel : ℕ) (s : Store) (t : Tree)
      → Zip s [] t
      → IsSorted key (inorder t)
      → size t < fuel
      → IsFound key k s t (rb_tree_find has_key goes_left fuel s)
  unfolding rb_tree_find get_root
  rb_tree_find-IsFound fuel s t z sorted enough =
      let f = find_below-IsFound fuel s null t z.focus sorted enough in
      record {
        found = f.found;
        returns = ap (λ p. find_below has_key goes_left fuel p s) z.at_root ∙ f.returns;
        right = f.right;
      }
