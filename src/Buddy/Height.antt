-- ===== src/Buddy/Height.antt =====
-- c/src/mem_buddy.c: the heights of the nodes of the tree in `longest`, whose node with the index `i` is
-- called `i + 1` here.
use artorias.Prelude.{
  ℕ, zero, suc, ◌+◌, ◌-◌, ◌*◌, ◌/◌, ◌^◌, ◌≤◌, ◌<◌, ◌≡◌, subst, inl, inr, ◌==◌, arith, Bool-cases,
}
use native.Mathlib.Nat.{pow-suc, pow-le-pow_right}

-- The node `j` is the root of a tree of height `k`.
pub data IsAt (logn : ℕ) : ℕ → ℕ → Type 0 where
  top : {j k : ℕ} → j ≡ 1 → k ≡ logn → IsAt logn j k
  left : {j k : ℕ} (i : ℕ) → j ≡ i * 2 → IsAt logn i (suc k) → IsAt logn j k
  right : {j k : ℕ} (i : ℕ) → j ≡ i * 2 + 1 → IsAt logn i (suc k) → IsAt logn j k

module _ (logn : ℕ) where
  IsAt-positive : (j k : ℕ) → IsAt logn j k → 0 < j
  IsAt-positive j k (top e h) = omega arith
  IsAt-positive j k (left i e h) = omega (arith, IsAt-positive i (suc k) h)
  IsAt-positive j k (right i e h) = omega arith

  pub IsAt-root : (k : ℕ) → IsAt logn 1 k → k ≡ logn
  IsAt-root k (top e h) = h
  IsAt-root k (left i e h) = absurd (omega arith)
  IsAt-root k (right i e h) = absurd (omega (arith, IsAt-positive i (suc k) h))

  pub IsAt-parent : (j k : ℕ) → IsAt logn j k → 1 < j → IsAt logn (j / 2) (suc k)
  IsAt-parent j k (top e h) lt = absurd (omega arith)
  IsAt-parent j k (left i e h) lt =
      let half : i ≡ j / 2 = omega arith in subst (λ m. IsAt logn m (suc k)) half h
  IsAt-parent j k (right i e h) lt =
      let half : i ≡ j / 2 = omega arith in subst (λ m. IsAt logn m (suc k)) half h

  at_depth : (d j : ℕ) → d ≤ logn → 2 ^ d ≤ j → j < 2 * 2 ^ d → IsAt logn j (logn - d)
  at_depth zero j le from below = top (omega arith) (omega arith)
  at_depth (suc d) j le from below =
      let up : IsAt logn (j / 2) (logn - d) =
        at_depth d (j / 2) (omega arith) (omega (arith, pow-suc 2 d))
          (omega (arith, pow-suc 2 d)) in
      let height : logn - d ≡ suc (logn - suc d) = omega arith in
      let up' : IsAt logn (j / 2) (suc (logn - suc d)) = subst (IsAt logn (j / 2)) height up in
      elim (Bool-cases (j == j / 2 * 2)) [
        | inl even ↦ left (j / 2) (ground arith) up'
        | inr odd ↦ let e : j ≡ j / 2 * 2 + 1 = ground arith in right (j / 2) e up'
      ]

  -- A leaf, by its offset.
  pub IsAt-leaf : (offset : ℕ) → offset < 2 ^ logn → IsAt logn (offset + 2 ^ logn) 0
  IsAt-leaf offset lt =
      let none_left : logn - logn ≡ 0 = omega arith in
      subst (IsAt logn (offset + 2 ^ logn)) none_left
        (at_depth logn (offset + 2 ^ logn) (omega arith) (omega arith) (omega arith))

  pub IsAt-unique : (j k k' : ℕ) → IsAt logn j k → IsAt logn j k' → k ≡ k'
  IsAt-unique j k k' (top e h) (top e' h') = omega arith
  IsAt-unique j k k' (top e h) (left i e' h') = absurd (omega arith)
  IsAt-unique j k k' (top e h) (right i e' h') = absurd (omega (arith, IsAt-positive i (suc k') h'))
  IsAt-unique j k k' (left i e h) (top e' h') = absurd (omega arith)
  IsAt-unique j k k' (left i e h) (left i' e' h') =
      let same : i' ≡ i = omega arith in
      omega (arith, IsAt-unique i (suc k) (suc k') h (subst (λ m. IsAt logn m (suc k')) same h'))
  IsAt-unique j k k' (left i e h) (right i' e' h') = absurd (omega arith)
  IsAt-unique j k k' (right i e h) (top e' h') = absurd (omega (arith, IsAt-positive i (suc k) h))
  IsAt-unique j k k' (right i e h) (left i' e' h') = absurd (omega arith)
  IsAt-unique j k k' (right i e h) (right i' e' h') =
      let same : i' ≡ i = omega arith in
      omega (arith, IsAt-unique i (suc k) (suc k') h (subst (λ m. IsAt logn m (suc k')) same h'))

  at_depth_below : (j k : ℕ) → IsAt logn j k → (k ≤ logn) × (j < 2 * 2 ^ (logn - k))
  at_depth_below j k (top e h) =
      let none_left : logn - k ≡ 0 = omega arith in (omega arith, rw (none_left, e) (omega arith))
  at_depth_below j k (left i e h) =
      let (le, lt) = at_depth_below i (suc k) h in
      let deeper : logn - k ≡ suc (logn - suc k) = omega arith in
      (omega arith, rw deeper (omega (arith, pow-suc 2 (logn - suc k))))
  at_depth_below j k (right i e h) =
      let (le, lt) = at_depth_below i (suc k) h in
      let deeper : logn - k ≡ suc (logn - suc k) = omega arith in
      (omega arith, rw deeper (omega (arith, pow-suc 2 (logn - suc k))))

  -- A node is in the array, and not higher than the root.
  pub IsAt-below : (j k : ℕ) → IsAt logn j k → (k ≤ logn) × (j < 2 * 2 ^ logn)
  IsAt-below j k at =
      let (le, lt) = at_depth_below j k at in
      let two : 0 < 2 = omega arith in
      let shallow : logn - k ≤ logn = omega arith in
      let grows : 2 ^ (logn - k) ≤ 2 ^ logn = pow-le-pow_right two shallow in (le, omega arith)
