-- ===== src/Prelude/Partial.antt =====
-- Fallible code: `none` is an access outside an object, which C leaves undefined.
use Prim.Native.Nat.{ℕ, ◌≤◌, ◌<◌}
use mathlib.Core.Path.{◌≡◌}
use mathlib.Core.List.{List}
use mathlib.Core.Option.{Option, none, some}
use artorias.Prelude.Lists.{length, get_elem?, get_or, set, get_elem?-eq-get_or, get_elem?-none}

infixl 5 ◌>>=◌
abbrev pub ◌>>=◌ {ℓ κ} : {A : Type ℓ} {B : Type κ} → Option A → (A → Option B) → Option B
none >>= f = none
some a >>= f = f a

module _ {ℓ} {A : Type ℓ} where
  -- `xs[i] = f(xs[i])`.
  unfoldable pub update : List A → ℕ → (A → A) → Option (List A)
  update xs i f = elim (get_elem? xs i) [ none ↦ none | some x ↦ some (set xs i (f x)) ]

  pub update-some :
      (xs : List A) (i : ℕ) (f : A → A) (d : A)
      → i < length xs
      → update xs i f ≡ some (set xs i (f (get_or xs i d)))
  unfolding update
  update-some xs i f d h = rw (update, get_elem?-eq-get_or xs i d h)

  pub update-none : (xs : List A) (i : ℕ) (f : A → A) → length xs ≤ i → update xs i f ≡ none
  unfolding update
  update-none xs i f h = rw (update, get_elem?-none xs i h)
