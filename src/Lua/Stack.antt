-- ===== src/Lua/Stack.antt =====
-- Indices of the Lua stack that count from its bottom.
use artorias.Prelude.{
  ℕ, suc, ◌-◌, ◌≡◌, refl, true, some, List, [], ◌∷◌, ◌++◌, ◌&&◌, arith, leb, length, get_elem?,
  length-append,
}
use artorias.Lua.{Value, Interp, bottom, ended, at}

elem_append : (us ys : List Value) (x : Value) → get_elem? (us ++ (x ∷ ys)) (length us) ≡ some x
elem_append [] ys x = refl
elem_append (u ∷ us) ys x = elem_append us ys x

-- The value above `length ys` others.
pub at_bottom :
    {K : Type 0} (lua : Interp K) (i : ℕ) (us : List Value) (x : Value) (ys : List Value) (l : K)
    → i ≡ suc (length ys)
    → at lua (bottom i) (us ++ (x ∷ ys)) l ≡ ended x (us ++ (x ∷ ys)) l
at_bottom lua i us x ys l e =
    let len = length-append us (x ∷ ys) in
    let there : (leb 1 i && leb i (length (us ++ (x ∷ ys)))) ≡ true = ground arith in
    let place : length (us ++ (x ∷ ys)) - i ≡ length us = omega arith in
    rw (there, place, elem_append us ys x) refl
