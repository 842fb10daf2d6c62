-- ===== src/Counter/Laws.antt =====
-- c/src/lm_counter.c: a counter from its start to its end.
use artorias.Prelude.{
  ℕ, ◌+◌, ◌%◌, ◌^◌, ◌≡◌, ◌≢◌, refl, ap, ◌∙◌, ◌>>=◌, false, Option, some, List, [], ◌∷◌, ◌==◌, arith,
}
use artorias.RbTree.Store.{Ptr, null}
use artorias.World.{update}
use artorias.World.Keeps.{update_self}
use artorias.Counter.{
  Heap, CounterUd, lcf_counter_new, lcf_counter_add, lcf_counter_getval, counter_create,
  counter_add, counter_getval,
}

-- `add` for each of the amounts.
abbrev pub add_all : CounterUd → List ℕ → Heap → Option Heap
add_all cu [] h = some h
add_all cu (a ∷ rest) h = lcf_counter_add cu a h >>= add_all cu rest

abbrev pub sum : List ℕ → ℕ
sum [] = 0
sum (a ∷ rest) = a + sum rest

lcf_counter_add-some :
    (cu : CounterUd) (a v : ℕ) (h : Heap)
    → cu.c ≢ null
    → h.val cu.c ≡ some v
    → lcf_counter_add cu a h ≡ some (record h { val = update h.val cu.c (some ((v + a) % 2 ^ 32)) })
unfolding lcf_counter_add counter_add
lcf_counter_add-some cu a v h there at =
    let away : (cu.c == null) ≡ false = ground arith in rw (away, at) refl

add_all-value :
    (cu : CounterUd) (amounts : List ℕ) (v : ℕ) (h : Heap)
    → cu.c ≢ null
    → h.val cu.c ≡ some (v % 2 ^ 32)
    → (h' : Heap) × (add_all cu amounts h ≡ some h')
      × (lcf_counter_getval cu h' ≡ some ((v + sum amounts) % 2 ^ 32))
unfolding lcf_counter_getval counter_getval
add_all-value cu [] v h there at =
    let away : (cu.c == null) ≡ false = ground arith in
    let same : v + 0 ≡ v = omega arith in (h, refl, rw (away, same) at)
add_all-value cu (a ∷ rest) v h there at =
    let h1 : Heap = record h { val = update h.val cu.c (some ((v % 2 ^ 32 + a) % 2 ^ 32)) } in
    let wraps : (v % 2 ^ 32 + a) % 2 ^ 32 ≡ (v + a) % 2 ^ 32 = omega arith in
    let at1 : h1.val cu.c ≡ some ((v + a) % 2 ^ 32) = update_self h.val cu.c _ ∙ ap some wraps in
    let (h', e, got) = add_all-value cu rest (v + a) h1 there at1 in
    let assoc : v + a + sum rest ≡ v + (a + sum rest) = omega arith in
    (
      h',
      ap (λ o. o >>= add_all cu rest) (lcf_counter_add-some cu a (v % 2 ^ 32) h there at) ∙ e,
      got ∙ ap (λ m. some (m % 2 ^ 32)) assoc,
    )

-- With a pool, and memory from it, a new counter that starts with some value, after `add` of any
-- amounts one by one, none of which reads a bad address, has the sum of the start and the amounts
-- as its value, modulo 2^32.
pub lcf_counter_new-value :
    (alloc : Heap → Ptr) (start : ℕ) (mp name : Ptr) (h : Heap) (amounts : List ℕ)
    → mp ≢ null
    → alloc h ≢ null
    → let (cu, h1) = lcf_counter_new alloc start mp name h in
      (h' : Heap) × (add_all cu amounts h1 ≡ some h')
      × (lcf_counter_getval cu h' ≡ some ((start + sum amounts) % 2 ^ 32))
unfolding lcf_counter_new counter_create
lcf_counter_new-value alloc start mp name h amounts pool found =
    let is_pool : (mp == null) ≡ false = ground arith in
    let is_found : (alloc h == null) ≡ false = ground arith in
    rw (is_pool, is_found)
      (add_all-value (record { c = alloc h; name = name }) amounts start
        (record h { val = update h.val (alloc h) (some (start % 2 ^ 32)) }) found
        (update_self h.val (alloc h) _))
