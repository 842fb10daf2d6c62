-- ===== src/Timeout/Expired.antt =====
-- c/src/thread.c: `asthread_remove_timeout_threads` on a pool whose root's time has come.
use artorias.Prelude.{
  ℕ, zero, suc, ◌≡◌, ◌<◌, ◌∙◌, ◌≢◌, inl, inr, true, false, Option, some, arith, ◌==◌, leb,
  Bool-cases,
}
use artorias.RbTree.Store.{Ptr, null, Color, Node, Store, done, load}
use artorias.RbTree.Shape.{Tree, leaf, node, holds, root_of, mk_node, Spells, IsSimple, Spells-Same}
use artorias.Timeout.{last_expired}
use artorias.Timeout.Split.{expired, taken, last, rest, holds-last, holds-rest, root_of-taken}

-- The length of the right spine, which bounds the rounds of the loop.
abbrev pub spine : Tree → ℕ
spine leaf = 0
spine (node l a c r) = suc (spine r)

module _ (et : Ptr → ℕ) (now : ℕ) where
  pub load-done :
      (p : Ptr) (n : Node) (s : Store) → p ≢ null → s.cell p ≡ some n → load p s ≡ done n s
  unfolding load
  load-done p n s ne cell = let not_null : (p == null) ≡ false = ground arith in rw (not_null, cell)

  pub last_expired-last :
      (fuel : ℕ) (parent : Ptr) (l : Tree) (a : Ptr) (c : Color) (r : Tree) (s : Store)
      → spine r < fuel
      → Spells s.cell parent (node l a c r)
      → last_expired et now fuel a s ≡ done (last et now (node l a c r)) s
  unfolding last_expired
  last_expired-last zero parent l a c r s h sp = absurd (omega arith)
  last_expired-last (suc fuel) parent l a c leaf s h (ne, cell, sl, sr) =
      rw (load-done a _ s ne cell)
  last_expired-last (suc fuel) parent l a c (node l' a' c' r') s h (ne, cell, sl, sr) =
      let not_null : (a' == null) ≡ false = ground (arith, sr.0) in
      rw (load-done a _ s ne cell, not_null)
        (elim (Bool-cases (leb (et a') now)) [
          | inl go ↦ rw go (last_expired-last fuel a l' a' c' r' s (omega arith) sr)
          | inr stop ↦ rw stop
        ])

  -- What stands at the cut.
  pub record Cut (c : Ptr → Option Node) (t : Tree) : Type 0 where
    pub parent : Ptr
    pub lc : Ptr
    pub col : Color
    pub ne_null : last et now t ≢ null
    pub cell : c (last et now t) ≡ some (mk_node parent lc (root_of (rest et now t)) col)
    pub below : Spells c (last et now t) (rest et now t)

  pub Cut-of :
      (c : Ptr → Option Node) (parent : Ptr) (t : Tree)
      → expired et now t ≡ true
      → Spells c parent t
      → Cut c t
  Cut-of c parent leaf e s = cc
  Cut-of c parent (node l a col r) e (ne, cell, sl, sr) = elim (Bool-cases (expired et now r)) [
    | inl go ↦
        let k = Cut-of c a r go sr in
        record {
          parent = k.parent;
          lc = k.lc;
          col = k.col;
          ne_null = rw go k.ne_null;
          cell = rw go k.cell;
          below = rw go k.below;
        }
    | inr stop ↦ record {
      parent = parent;
      lc = root_of l;
      col = col;
      ne_null = rw stop ne;
      cell = rw stop cell;
      below = rw stop sr;
    }
  ]

  -- A store that differs from the old one only at the cut and behind it spells what is taken.
  pub Spells-taken :
      (c c' : Ptr → Option Node) (parent : Ptr) (t : Tree)
      → IsSimple t
      → expired et now t ≡ true
      → Spells c parent t
      → ((x : Ptr)
          → holds x t ≡ true
          → x ≢ last et now t
          → holds x (rest et now t) ≡ false
          → c' x ≡ c x)
      → ((p l r : Ptr) (col : Color)
          → c (last et now t) ≡ some (mk_node p l r col)
          → c' (last et now t) ≡ some (mk_node p l null col))
      → Spells c' parent (taken et now t)
  unfolding taken
  Spells-taken c c' parent leaf simple e s same cut = tt
  Spells-taken c c' parent (node l a col r) (al, ar, apart, il, ir) e (ne, cell, sl, sr) same cut =
      elim (Bool-cases (expired et now r)) [
        | inl go ↦
            let e1 : last et now (node l a col r) ≡ last et now r = rw go in
            let e2 : rest et now (node l a col r) ≡ rest et now r = rw go in
            let last_in = holds-last et now r go in
            let same' =
              λ (x : Ptr) (h : holds x (node l a col r) ≡ true) (ne : x ≢ last et now r)
                  (out : holds x (rest et now r) ≡ false).
                same x h (λ q. ne (q ∙ e1)) (rw e2 out) in
            let cut' : (p l r' : Ptr) (k : Color)
                → c (last et now r) ≡ some (mk_node p l r' k)
                → c' (last et now r) ≡ some (mk_node p l null k) =
              rw e1 at cut in
            rw go (
              ne,
              same' a (ground arith) (ground (arith, last_in)) (outside a r ar)
                  ∙ rw (root_of-taken et now r) cell,
              Spells-Same c c' a l
                  (λ x h.
                    same' x (ground arith) (ground (arith, last_in, apart x))
                      (outside x r (apart x h)))
                  sl,
              Spells-taken c c' a r ir go sr (λ x h. same' x (ground arith)) cut',
            )
        | inr stop ↦
            let e1 : last et now (node l a col r) ≡ a = rw stop in
            let e2 : rest et now (node l a col r) ≡ r = rw stop in
            let cut' : (p l r' : Ptr) (k : Color)
                → c a ≡ some (mk_node p l r' k)
                → c' a ≡ some (mk_node p l null k) =
              rw e1 at cut in
            rw stop (
              ne,
              cut' parent (root_of l) (root_of r) col cell,
              Spells-Same c c' a l
                  (λ x h. same x (ground arith) (λ q. differ x (q ∙ e1) h al) (rw e2 (apart x h)))
                  sl,
              tt,
            )
      ]
    where
      outside : (x : Ptr) (r : Tree) → holds x r ≡ false → holds x (rest et now r) ≡ false
      outside x r out = elim (Bool-cases (holds x (rest et now r))) [
        | inl in_rest ↦ cc (holds-rest et now x r in_rest)
        | inr out' ↦ out'
      ]

      differ : (x : Ptr) → x ≡ a → holds x l ≡ true → holds a l ≡ false → ⊥
      differ x e h out = let h' : holds a l ≡ true = rw e at h in cc

  pub last_out :
      (t : Tree)
      → IsSimple t
      → expired et now t ≡ true
      → holds (last et now t) (rest et now t) ≡ false
  last_out leaf i e = cc
  last_out (node l a c r) (al, ar, apart, il, ir) e = elim (Bool-cases (expired et now r)) [
    | inl go ↦ rw go (last_out r ir go)
    | inr stop ↦ rw stop ar
  ]

  pub IsSimple-rest : (t : Tree) → IsSimple t → IsSimple (rest et now t)
  IsSimple-rest leaf i = i
  IsSimple-rest (node l a c r) (al, ar, apart, il, ir) = elim (Bool-cases (expired et now r)) [
    | inl go ↦ rw go (IsSimple-rest r ir)
    | inr stop ↦ rw stop ir
  ]
