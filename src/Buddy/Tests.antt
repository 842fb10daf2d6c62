-- ===== src/Buddy/Tests.antt =====
-- c/src/mem_buddy.c with four units.
use artorias.Prelude.{ℕ, ◌≤◌, some, get_elem?, zero, suc, ◌≡◌, refl, [], ◌∷◌, arith, ◌^◌}
use artorias.Worker.{pos}
use artorias.Buddy.{Buddy, value, fault, rounded, buddy_new, buddy_alloc, buddy_free}
use artorias.Buddy.Height.{IsAt, IsAt-unique, top, right}
use artorias.Buddy.Alloc.{IsRoom, buddy_alloc-IsRoom}
use artorias.Buddy.Free.{IsBounded, IsSplit, Returns, buddy_free-IsSplit}

fresh : (buddy_new 2).longest ≡ 3 ∷ 2 ∷ 2 ∷ 1 ∷ 1 ∷ 1 ∷ 1 ∷ []
unfolding buddy_new
fresh = refl

-- One unit is in use, at the offset 0.
abbrev split : Buddy
split = record { logn = 2; longest = 2 ∷ 1 ∷ 2 ∷ 0 ∷ 1 ∷ 1 ∷ 1 ∷ [] }

allocated : buddy_alloc 9 (buddy_new 2) 1 ≡ value (pos 0, split)
unfolding buddy_new buddy_alloc
allocated = refl

-- It is freed again, and half of the units can be allocated at once, but not all of them.
freed : buddy_free 9 split 0 ≡ value (record { logn = 2; longest = 2 ∷ 1 ∷ 2 ∷ 1 ∷ 1 ∷ 1 ∷ 1 ∷ [] })
unfolding buddy_free
freed = refl

-- An allocation of nothing leaves the array.
nothing : buddy_alloc 9 (buddy_new 2) 0 ≡ fault
unfolding buddy_new buddy_alloc
nothing = refl

root : IsAt 2 1 2
root = top refl refl

small : (j k v : ℕ) → IsAt 2 (suc j) k → get_elem? split.longest j ≡ some v → v ≤ suc k
small zero k v at e = let q : 2 ≡ v = ground arith in omega (arith, IsAt-unique 2 1 2 k root at)
small (suc zero) k v at e = let q : 1 ≡ v = ground arith in omega arith
small (suc (suc zero)) k v at e =
    let q : 2 ≡ v = ground arith in
    let right_half : IsAt 2 3 1 = right 1 refl root in
    omega (arith, IsAt-unique 2 3 1 k right_half at)
small (suc (suc (suc zero))) k v at e = let q : 0 ≡ v = ground arith in omega arith
small (suc (suc (suc (suc zero)))) k v at e = let q : 1 ≡ v = ground arith in omega arith
small (suc (suc (suc (suc (suc zero))))) k v at e = let q : 1 ≡ v = ground arith in omega arith
small (suc (suc (suc (suc (suc (suc zero)))))) k v at e =
    let q : 1 ≡ v = ground arith in omega arith
small (suc (suc (suc (suc (suc (suc (suc j))))))) k v at e = cc

bounded : IsBounded 2 split.longest
bounded = record { full = refl; small = small }

buddy_free-IsSplit_example :
    Returns
      (λ b'. (b'.logn ≡ 2) × IsBounded 2 b'.longest × IsSplit 2 b'.longest)
      (buddy_free 9 split 0)
buddy_free-IsSplit_example =
    buddy_free-IsSplit 9 split 0 2 bounded refl (λ e. ground arith) (omega arith) (omega arith)

two_units : rounded 2 ≡ 2 ^ 1
unfolding rounded
two_units = refl

buddy_alloc-IsRoom_example : Returns (IsRoom split 1) (buddy_alloc 9 split 2)
buddy_alloc-IsRoom_example = buddy_alloc-IsRoom 9 split 2 1 bounded two_units (omega arith)
