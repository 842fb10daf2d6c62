-- ===== src/Timeout/Split.antt =====
-- c/src/thread.c: the cut of a pool whose root's time has come, as a function on trees.
use artorias.Prelude.{
  ℕ, ◌≡◌, ◌≤◌, refl, ◌∙◌, ap, inl, inr, Bool, true, false, ◌∷◌, ◌++◌, arith, leb, if◌then◌else◌,
  Bool-cases,
}
use mathlib.Core.List.{append_assoc}
use artorias.RbTree.Store.{Ptr, null, Color, black}
use artorias.RbTree.Shape.{Tree, leaf, node, inorder, holds, root_of}

-- Every node of the tree satisfies `P`.
abbrev pub Every : (Ptr → Type 0) → Tree → Type 0
Every P leaf = Unit
Every P (node l a c r) = P a × Every P l × Every P r

-- A pool is ordered by `et`.
abbrev pub IsOrdered : (Ptr → ℕ) → Tree → Type 0
IsOrdered et leaf = Unit
IsOrdered et (node l a c r) =
    Every (λ x. et x ≤ et a) l × Every (λ x. et a ≤ et x) r × IsOrdered et l × IsOrdered et r

abbrev blackened : Tree → Tree
blackened leaf = leaf
blackened (node l a c r) = node l a black r

module _ (et : Ptr → ℕ) (now : ℕ) where
  abbrev pub expired : Tree → Bool
  expired leaf = false
  expired (node l a c r) = leb (et a) now

  -- What is taken out, and what stays.
  unfoldable pub taken : Tree → Tree
  taken leaf = leaf
  taken (node l a c r) = node l a c (if expired r then taken r else leaf)

  pub kept : Tree → Tree
  kept leaf = leaf
  kept (node l a c r) = let rest = kept r in if expired r then rest else blackened r

  -- The node behind which the tree is cut, and what hangs there.
  abbrev pub last : Tree → Ptr
  last leaf = null
  last (node l a c r) = if expired r then last r else a

  abbrev pub rest : Tree → Tree
  rest leaf = leaf
  rest (node l a c r) = if expired r then rest r else r

  pub kept-blackened-rest : (t : Tree) → kept t ≡ blackened (rest t)
  unfolding kept
  kept-blackened-rest leaf = refl
  kept-blackened-rest (node l a c r) = elim (Bool-cases (expired r)) [
    | inl go ↦ rw go (kept-blackened-rest r)
    | inr stop ↦ rw stop
  ]

  holds-right :
      (x : Ptr) (l : Tree) (a : Ptr) (c : Color) (r : Tree)
      → holds x r ≡ true
      → holds x (node l a c r) ≡ true
  holds-right x l a c r h = ground arith

  holds-here : (l : Tree) (a : Ptr) (c : Color) (r : Tree) → holds a (node l a c r) ≡ true
  holds-here l a c r = ground arith

  pub holds-last : (t : Tree) → expired t ≡ true → holds (last t) t ≡ true
  holds-last leaf e = cc
  holds-last (node l a c r) e = elim (Bool-cases (expired r)) [
    | inl go ↦
        let e1 : last (node l a c r) ≡ last r = rw go in
        ap (λ x. holds x (node l a c r)) e1 ∙ holds-right (last r) l a c r (holds-last r go)
    | inr stop ↦
        let e1 : last (node l a c r) ≡ a = rw stop in
        ap (λ x. holds x (node l a c r)) e1 ∙ holds-here l a c r
  ]

  pub root_of-taken : (t : Tree) → root_of (taken t) ≡ root_of t
  unfolding taken
  root_of-taken leaf = refl
  root_of-taken (node l a c r) = refl

  pub holds-rest : (x : Ptr) (t : Tree) → holds x (rest t) ≡ true → holds x t ≡ true
  holds-rest x leaf h = h
  holds-rest x (node l a c r) h = elim (Bool-cases (expired r)) [
    | inl go ↦ let h' : holds x (rest r) ≡ true = rw go at h in ground (arith, holds-rest x r h')
    | inr stop ↦ let h' : holds x r ≡ true = rw stop at h in ground arith
  ]

  inorder-blackened : (t : Tree) → inorder (blackened t) ≡ inorder t
  inorder-blackened leaf = refl
  inorder-blackened (node l a c r) = refl

  -- Together they are the whole pool, in order.
  pub inorder-taken-kept : (t : Tree) → inorder (taken t) ++ inorder (kept t) ≡ inorder t
  unfolding taken kept
  inorder-taken-kept leaf = refl
  inorder-taken-kept (node l a c r) = elim (Bool-cases (expired r)) [
    | inl go ↦ rw (go, append_assoc) (ap (λ ys. inorder l ++ (a ∷ ys)) (inorder-taken-kept r))
    | inr stop ↦ rw (stop, append_assoc, inorder-blackened r)
  ]

  Every-mono : (P Q : Ptr → Type 0) (t : Tree) → ((x : Ptr) → P x → Q x) → Every P t → Every Q t
  Every-mono P Q leaf f e = tt
  Every-mono P Q (node l a c r) f (p, el, er) =
      (f a p, Every-mono P Q l f el, Every-mono P Q r f er)

  -- Whatever is taken out of an ordered pool with an expired root has expired.
  pub taken-Every :
      (t : Tree) → IsOrdered et t → expired t ≡ true → Every (λ x. et x ≤ now) (taken t)
  unfolding taken
  taken-Every leaf o e = tt
  taken-Every (node l a c r) (ol, or', sl, sr) e =
      let root : et a ≤ now = ground arith in
      (
        root,
        Every-mono (λ x. et x ≤ et a) (λ x. et x ≤ now) l (λ x h. omega arith) ol,
        elim (Bool-cases (expired r)) [
          | inl go ↦ rw go (taken-Every r sr go)
          | inr stop ↦ rw stop tt
        ],
      )
