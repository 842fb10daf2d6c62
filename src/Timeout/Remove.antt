-- ===== src/Timeout/Remove.antt =====
-- c/src/thread.c: what `asthread_remove_timeout_threads` takes out of a pool.
use artorias.Prelude.{
  ℕ, zero, suc, ◌≡◌, ◌≤◌, ◌<◌, refl, ◌∙◌, ap, ◌≢◌, Bool, true, false, ◌++◌, arith, ◌==◌, leb, ltb,
  if◌then◌else◌,
}
use artorias.RbTree.Store.{Ptr, null, Store, done, Cmd, return, get_root}
use artorias.RbTree.Shape.{Tree, leaf, node, inorder, root_of, Spells, IsSimple}
use artorias.Timeout.{first_expired, cut_root, cut_left, asthread_remove_timeout_threads}
use artorias.Timeout.Split.{
  Every, IsOrdered, expired, taken, kept, rest, inorder-taken-kept, taken-Every,
}
use artorias.Timeout.Expired.{spine, load-done, last_expired-last, Cut-of}
use artorias.Timeout.Cut.{IsCut, ne_test, IsCut-leaf, IsCut-node}

cut_root-IsCut :
    (et : Ptr → ℕ) (now fuel : ℕ) (t : Tree) (s : Store)
    → IsSimple t
    → expired et now t ≡ true
    → Spells s.cell null t
    → spine t ≤ fuel
    → IsCut et now t (cut_root et now fuel (root_of t) s)
cut_root-IsCut et now fuel leaf s simple e spells enough = cc
cut_root-IsCut et now fuel (node l a c r) s simple e spells enough =
    go (rest et now (node l a c r)) refl
  where
    t : Tree
    t = node l a c r

    go :
        (u : Tree)
        → rest et now (node l a c r) ≡ u
        → IsCut et now (node l a c r) (cut_root et now fuel a s)
    go leaf q =
        IsCut-leaf et now fuel (node l a c r) s simple e spells
          (last_expired-last et now fuel null l a c r s (omega arith) spells)
          (Cut-of et now s.cell null (node l a c r) e spells) q
    go (node l' a' c' r') q =
        IsCut-node et now fuel (node l a c r) s simple e spells
          (last_expired-last et now fuel null l a c r s (omega arith) spells)
          (Cut-of et now s.cell null (node l a c r) e spells) l' a' c' r' q

root_expired :
    (et : Ptr → ℕ) (now fuel : ℕ) (s : Store)
    → s.root ≢ null
    → et s.root ≤ now
    → asthread_remove_timeout_threads et now fuel s ≡ cut_root et now fuel s.root s
unfolding asthread_remove_timeout_threads get_root
root_expired et now fuel s ne come =
    let passed : leb (et s.root) now ≡ true = ground arith in rw (ne_test s.root ne, passed)

if_false : {A : Type 0} (b : Bool) (x y : A) → b ≡ false → (if b then x else y) ≡ y
if_false true x y e = cc
if_false false x y e = refl

pub root_later :
    (et : Ptr → ℕ) (now fuel : ℕ) (s : Store)
    → s.root ≢ null
    → now < et s.root
    → asthread_remove_timeout_threads et now fuel s ≡ cut_left et now fuel s.root s
unfolding asthread_remove_timeout_threads get_root
root_later et now fuel s ne come =
    let passed : leb (et s.root) now ≡ false = ground arith in
    ap (λ m. m s)
      (if_false (s.root == null) (return null) (later s.root) (ne_test s.root ne)
        ∙ if_false (leb (et s.root) now) (cut_root et now fuel s.root) (cut_left et now fuel s.root)
            passed)
  where
    later : Ptr → Cmd Ptr
    later p = if leb (et p) now then cut_root et now fuel p else cut_left et now fuel p

-- For a pool whose store spells a tree with every address once, ordered by `et`, whose root's time
-- has come, and with fuel for the right spine, `asthread_remove_timeout_threads` returns the root;
-- the store then spells the tree taken out at the root returned and the tree kept at the pool's
-- root; every thread taken out has its time come; and the nodes of both, in order, are those of the
-- pool.
pub remove_timeout-IsCut :
    (et : Ptr → ℕ) (now fuel : ℕ) (t : Tree) (s : Store)
    → IsSimple t
    → IsOrdered et t
    → expired et now t ≡ true
    → Spells s.cell null t
    → s.root ≡ root_of t
    → spine t ≤ fuel
    → IsCut et now t (asthread_remove_timeout_threads et now fuel s)
      × Every (λ x. et x ≤ now) (taken et now t)
      × (inorder (taken et now t) ++ inorder (kept et now t) ≡ inorder t)
remove_timeout-IsCut et now fuel leaf s simple o e spells at_root enough = cc
remove_timeout-IsCut et now fuel (node l a c r) s simple o e spells at_root enough =
    let come : et a ≤ now = ground arith in
    let run =
      root_expired et now fuel s (rw at_root spells.0) (rw at_root come)
      ∙ ap (λ p. cut_root et now fuel p s) at_root in
    (
      rw run (cut_root-IsCut et now fuel (node l a c r) s simple e spells enough),
      taken-Every et now (node l a c r) o e,
      inorder-taken-kept et now (node l a c r),
    )

abbrev left_spine : Tree → ℕ
left_spine leaf = 0
left_spine (node l a c r) = suc (left_spine l)

first_expired-null :
    (et : Ptr → ℕ) (now fuel : ℕ) (parent : Ptr) (t : Tree) (s : Store)
    → Every (λ x. now < et x) t
    → Spells s.cell parent t
    → left_spine t < fuel
    → first_expired et now fuel (root_of t) s ≡ done null s
unfolding first_expired
first_expired-null et now zero parent t s late spells enough = absurd (omega arith)
first_expired-null et now (suc fuel) parent leaf s late spells enough = refl
first_expired-null et now (suc fuel) parent (node l a c r) s (la, ll, lr) (ne, cell, sl, sr)
      enough =
    let later : ltb now (et a) ≡ true = ground arith in
    rw (ne_test a ne, later, load-done et now a _ s ne cell)
      (first_expired-null et now fuel a l s ll sl (omega arith))

-- A pool that the store spells and none of whose threads has its time come stays as it is, and
-- `asthread_remove_timeout_threads` returns NULL, given fuel for the left spine.
remove_timeout-null :
    (et : Ptr → ℕ) (now fuel : ℕ) (t : Tree) (s : Store)
    → Every (λ x. now < et x) t
    → Spells s.cell null t
    → s.root ≡ root_of t
    → left_spine t ≤ fuel
    → asthread_remove_timeout_threads et now fuel s ≡ done null s
unfolding asthread_remove_timeout_threads get_root cut_left
remove_timeout-null et now fuel leaf s late spells at_root enough =
    let none_there : (s.root == null) ≡ true = ground arith in rw none_there
remove_timeout-null et now fuel (node l a c r) s (la, ll, lr) (ne, cell, sl, sr) at_root enough =
    root_later et now fuel s (rw at_root ne) (rw at_root la)
    ∙ ap (λ p. cut_left et now fuel p s) at_root
    ∙ stays
  where
    stays : cut_left et now fuel a s ≡ done null s
    stays =
        rw
          (load-done et now a _ s ne cell, first_expired-null et now fuel a l s ll sl (omega arith))
