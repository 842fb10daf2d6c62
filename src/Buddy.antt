-- ===== src/Buddy.antt =====
-- c/src/mem_buddy.c: the buddy allocator. `longest` is the array; what is outside it is a fault. Sizes
-- are below 2^32 and `logn` below 31.
pub mod Height
pub mod Free
pub mod Alloc
mod Tests
use artorias.Prelude.{
  ℕ, zero, suc, ◌+◌, ◌-◌, ◌*◌, ◌/◌, ◌%◌, ◌^◌, max, bit_and, bit_or, Bool, ◌&&◌, Option, none, some,
  List, [], ◌∷◌, ◌==◌, ltb, leb, if◌then◌else◌, get_elem?, set,
}
use artorias.Worker.{ℤ, pos, negsuc}

-- `as_mem_buddy_t`
pub record Buddy : Type 0 where
  pub logn : ℕ
  pub longest : List ℕ

-- How a function comes back; a loop may need more rounds than it is given.
pub data Result (A : Type 0) : Type 0 where
  value : A → Result A
  fault : Result A
  no_fuel : Result A

infixl 5 ◌>>=◌
abbrev ◌>>=◌ : {A B : Type 0} → Result A → (A → Result B) → Result B
value a >>= f = f a
fault >>= f = fault
no_fuel >>= f = no_fuel

-- The macros PARENT, LEFT_CHILD, RIGHT_CHILD, IS_POWER_OF_2, NODE_SIZE and BUDDY_SIZE.
abbrev pub parent : ℕ → ℕ
parent x = (x + 1) / 2 - 1

abbrev pub left_child : ℕ → ℕ
left_child x = x * 2 + 1

abbrev pub right_child : ℕ → ℕ
right_child x = x * 2 + 2

abbrev is_power_of_2 : ℕ → Bool
is_power_of_2 x = bit_and x (x - 1) == 0

abbrev pub node_size : ℕ → ℕ
node_size x = if x == 0 then 0 else 2 ^ (x - 1)

abbrev pub buddy_size : Buddy → ℕ
buddy_size b = 2 ^ b.logn

abbrev fix_size : ℕ → ℕ
fix_size size =
    let s1 = bit_or size (size / 2) in
    let s2 = bit_or s1 (s1 / 4) in
    let s4 = bit_or s2 (s2 / 16) in
    let s8 = bit_or s4 (s4 / 256) in (bit_or s8 (s8 / 65536) + 1) % 2 ^ 32

-- The size that `buddy_alloc` looks for.
pub rounded : ℕ → ℕ
rounded size = if is_power_of_2 size then size else fix_size size

-- `longest[i]`
unfoldable pub load : List ℕ → ℕ → Result ℕ
load xs i = elim (get_elem? xs i) [ none ↦ fault | some v ↦ value v ]

-- The loop of `buddy_new`, for the `n` nodes from `i` on.
fill_from : ℕ → ℕ → ℕ → List ℕ
fill_from zero i node_logn = []
fill_from (suc n) i node_logn =
    let l = if is_power_of_2 (i + 1) then node_logn - 1 else node_logn in
    (l + 1) ∷ fill_from n (i + 1) l

-- When there is memory.
pub buddy_new : ℕ → Buddy
unfolding fill_from
buddy_new logn = record { logn = logn; longest = fill_from (2 * 2 ^ logn - 1) 0 (logn + 1) }

-- The first loop of `buddy_alloc`: the node and its size.
pub descend : ℕ → List ℕ → ℕ → ℕ → ℕ → Result (ℕ × ℕ)
unfolding load
descend zero xs size node index = no_fuel
descend (suc fuel) xs size node index =
    if node == size
    then value (index, node)
    else (load xs (left_child index) >>= λ l.
        descend fuel xs size (node / 2)
          (if leb size (node_size l) then left_child index else right_child index))

-- The second one, from the node `index` up.
pub refresh : ℕ → ℕ → List ℕ → Result (List ℕ)
unfolding load
refresh zero index xs = no_fuel
refresh (suc fuel) index xs =
    if index == 0
    then value xs
    else (load xs (left_child (parent index)) >>= λ l. load xs (right_child (parent index)) >>= λ r.
        refresh fuel (parent index) (set xs (parent index) (max l r)))

abbrev pub alloc_at : ℕ → Buddy → ℕ × ℕ → Result (ℤ × Buddy)
alloc_at fuel b (index, node) = load b.longest index >>= λ old.
    refresh fuel index (set b.longest index 0) >>= λ xs.
    value (pos ((index + 1) * node - buddy_size b), record b { longest = xs })

pub buddy_alloc : ℕ → Buddy → ℕ → Result (ℤ × Buddy)
unfolding load descend refresh rounded
buddy_alloc fuel b size =
    let n = rounded size in
    load b.longest 0 >>= λ whole.
    if ltb (node_size whole) n
    then value (negsuc 0, b)
    else (descend fuel b.longest n (buddy_size b) 0 >>= alloc_at fuel b)

-- The first loop of `buddy_free`: the node where it stops, with `node_logn`, or nothing where the
-- function returns.
pub find_used : ℕ → List ℕ → ℕ → ℕ → Result (Option (ℕ × ℕ))
unfolding load
find_used zero xs index node_logn = no_fuel
find_used (suc fuel) xs index node_logn = load xs index >>= λ v.
    if v == 0
    then value (some (index, node_logn))
    else if index == 0
    then value none
    else find_used fuel xs (parent index) (node_logn + 1)

abbrev pub joined : ℕ → ℕ → ℕ → ℕ
joined node_logn l r = if (l == r) && (l == node_logn) then node_logn else max l r

-- The second one.
pub join_up : ℕ → ℕ → ℕ → List ℕ → Result (List ℕ)
unfolding load
join_up zero index node_logn xs = no_fuel
join_up (suc fuel) index node_logn xs =
    if index == 0
    then value xs
    else (load xs (left_child (parent index)) >>= λ l. load xs (right_child (parent index)) >>= λ r.
        join_up fuel (parent index) (node_logn + 1)
          (set xs (parent index) (joined (node_logn + 1) l r)))

abbrev pub free_at : ℕ → Buddy → Option (ℕ × ℕ) → Result Buddy
free_at fuel b none = value b
free_at fuel b (some (index, node_logn)) =
    join_up fuel index node_logn (set b.longest index node_logn) >>= λ xs.
    value (record b { longest = xs })

pub buddy_free : ℕ → Buddy → ℕ → Result Buddy
unfolding find_used join_up
buddy_free fuel b offset =
    if leb (buddy_size b) offset
    then value b
    else (find_used fuel b.longest (offset + buddy_size b - 1) 1 >>= free_at fuel b)
