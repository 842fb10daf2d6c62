-- ===== src/Buddy/Alloc.antt =====
-- c/src/mem_buddy.c: where `buddy_alloc` finds room.
use artorias.Prelude.{
  ℕ, zero, suc, ◌+◌, ◌-◌, ◌*◌, ◌/◌, ◌^◌, ◌≤◌, ◌<◌, ◌≡◌, ◌≢◌, refl, sym, ap, subst, inl, inr, true,
  false, List, ◌==◌, leb, ltb, max, arith, Bool-cases, set,
}
use native.Mathlib.Nat.{pow-suc, pow-le-pow_right, add-mul, mul-add}
use artorias.Worker.{ℤ, pos, negsuc}
use artorias.Buddy.{
  Buddy, parent, left_child, right_child, node_size, load, rounded, descend, refresh, alloc_at,
  buddy_alloc,
}
use artorias.Buddy.Height.{IsAt, IsAt-below, top, left, right}
use artorias.Buddy.Free.{Returns, Returns-bind, IsBounded, node-Returns, IsBounded-set, at_parent}

double_left : (a m : ℕ) → a * 2 * m ≡ a * m + a * m
double_left a m = let e : a * 2 ≡ a + a = omega arith in rw e (add-mul a a m)

double_right : (a m : ℕ) → a * (m * 2) ≡ a * m + a * m
double_right a m = let e : m * 2 ≡ m + m = omega arith in rw e (mul-add a m m)

module _ (logn : ℕ) where
  -- The units of a node of height `k`: a multiple of `2 ^ k` of them before it, and it ends within the
  -- whole.
  pub record Spans (j k : ℕ) : Type 0 where
    pub times : ℕ
    pub starts : j * 2 ^ k ≡ times * 2 ^ k + 2 ^ logn
    pub ends : times * 2 ^ k + 2 ^ k ≤ 2 ^ logn

  -- The span of a node, in units of its children.
  halves :
      (i k : ℕ) (s : Spans i (suc k))
      → (i * 2 ^ k + i * 2 ^ k ≡ (s.times * 2 ^ k + s.times * 2 ^ k) + 2 ^ logn)
        × ((s.times * 2 ^ k + s.times * 2 ^ k) + (2 ^ k + 2 ^ k) ≤ 2 ^ logn)
  halves i k s =
      let e1 = double_right i (2 ^ k) in
      let e2 = double_right s.times (2 ^ k) in
      let p = pow-suc 2 k in
      let starts : i * (2 ^ k * 2) ≡ s.times * (2 ^ k * 2) + 2 ^ logn = rw p at s.starts in
      let ends : s.times * (2 ^ k * 2) + 2 ^ k * 2 ≤ 2 ^ logn = rw p at s.ends in
      (omega arith, omega arith)

  IsAt-Spans : (j k : ℕ) → IsAt logn j k → Spans j k
  IsAt-Spans j k (top e h) = record {
    times = 0;
    starts = rw (e, h) (omega arith);
    ends = rw h (omega arith);
  }
  IsAt-Spans j k (left i e h) =
      let s = IsAt-Spans i (suc k) h in
      let (starts, ends) = halves i k s in
      record {
        times = s.times * 2;
        starts = rw (e, double_left i (2 ^ k), double_left s.times (2 ^ k)) starts;
        ends = rw (double_left s.times (2 ^ k)) (omega arith);
      }
  IsAt-Spans j k (right i e h) =
      let s = IsAt-Spans i (suc k) h in
      let (starts, ends) = halves i k s in
      record {
        times = s.times * 2 + 1;
        starts =
            rw
              (
                e,
                add-mul (i * 2) 1 (2 ^ k),
                add-mul (s.times * 2) 1 (2 ^ k),
                double_left i (2 ^ k),
                double_left s.times (2 ^ k),
              )
              (omega arith);
        ends = rw (add-mul (s.times * 2) 1 (2 ^ k), double_left s.times (2 ^ k)) (omega arith);
      }

positive : (k : ℕ) → 0 < 2 ^ k
positive zero = omega arith
positive (suc k) = let p = pow-suc 2 k in let h = positive k in omega arith

grows : (e k : ℕ) → e ≤ k → 2 ^ e < 2 ^ suc k
grows e k le =
    let two : 0 < 2 = omega arith in
    let m : 2 ^ e ≤ 2 ^ k = pow-le-pow_right two le in
    let p = pow-suc 2 k in let h = positive k in omega arith

-- What `buddy_alloc` of `2 ^ e` units gives: -1, and nothing has changed; or an offset that is a multiple
-- of the size, of units that lie within the whole, and an array whose values are bounded again.
abbrev pub IsRoom : Buddy → ℕ → ℤ × Buddy → Type 0
IsRoom b e (negsuc m, b') = (m ≡ 0) × (b' ≡ b)
IsRoom b e (pos offset, b') =
    ((times : ℕ) × (offset ≡ times * 2 ^ e))
    × (offset + 2 ^ e ≤ 2 ^ b.logn)
    × (b'.logn ≡ b.logn)
    × IsBounded b.logn b'.longest

module _ (logn : ℕ) where
  descend-IsAt :
      (fuel k e index : ℕ) (xs : List ℕ)
      → e ≤ k
      → IsAt logn (suc index) k
      → IsBounded logn xs
      → k < fuel + e
      → Returns (λ r. IsAt logn (suc r.0) e × (r.1 ≡ 2 ^ e)) (descend fuel xs (2 ^ e) (2 ^ k) index)
  unfolding descend
  descend-IsAt zero k e index xs le at bounded enough = absurd (omega arith)
  descend-IsAt (suc fuel) zero e index xs le at bounded enough =
      let none : e ≡ 0 = omega arith in
      let test : (2 ^ 0 == 2 ^ e) ≡ true = let q = ap (λ n. 2 ^ n) none in ground arith in
      rw test (subst (IsAt logn (suc index)) (sym none) at, ap (λ n. 2 ^ n) (sym none))
  descend-IsAt (suc fuel) (suc k) e index xs le at bounded enough = elim (Bool-cases (leb e k)) [
    | inr more ↦
        let here : suc k ≡ e = ground arith in
        let test : (2 ^ suc k == 2 ^ e) ≡ true = let q = ap (λ n. 2 ^ n) here in ground arith in
        rw test (subst (IsAt logn (suc index)) here at, ap (λ n. 2 ^ n) here)
    | inl below ↦
        let le' : e ≤ k = ground arith in
        let test : (2 ^ suc k == 2 ^ e) ≡ false = let q = grows e k le' in ground arith in
        let half : 2 ^ suc k / 2 ≡ 2 ^ k = let p = pow-suc 2 k in omega arith in
        let at_l : IsAt logn (suc (left_child index)) k = left (suc index) (omega arith) at in
        let at_r : IsAt logn (suc (right_child index)) k = right (suc index) (omega arith) at in
        rw (test, half)
          (Returns-bind _ _ (load xs (left_child index)) _
            (node-Returns logn xs (left_child index) k bounded at_l)
            (λ l el. elim (Bool-cases (leb (2 ^ e) (node_size l))) [
              | inl room ↦
                  rw room
                    (descend-IsAt fuel k e (left_child index) xs le' at_l bounded (omega arith))
              | inr full ↦
                  rw full
                    (descend-IsAt fuel k e (right_child index) xs le' at_r bounded (omega arith))
            ]))
  ]

  refresh-IsBounded :
      (fuel index k : ℕ) (xs : List ℕ)
      → IsAt logn (suc index) k
      → IsBounded logn xs
      → logn < fuel + k
      → Returns (IsBounded logn) (refresh fuel index xs)
  unfolding refresh
  refresh-IsBounded zero index k xs at bounded enough =
      let (le, lt) = IsAt-below logn (suc index) k at in absurd (omega arith)
  refresh-IsBounded (suc fuel) index k xs at bounded enough = elim (Bool-cases (index == 0)) [
    | inl here ↦ rw here bounded
    | inr up ↦
        let there : index ≢ 0 = λ z. ground arith in
        let at_p : IsAt logn (suc (parent index)) (suc k) = at_parent logn index k there at in
        let at_l : IsAt logn (suc (left_child (parent index))) k =
          left (suc (parent index)) (omega arith) at_p in
        let at_r : IsAt logn (suc (right_child (parent index))) k =
          right (suc (parent index)) (omega arith) at_p in
        rw up (
          Returns-bind _ _ (load xs (left_child (parent index))) _
            (node-Returns logn xs _ k bounded at_l)
            (λ l el.
              Returns-bind _ _ (load xs (right_child (parent index))) _
                (node-Returns logn xs _ k bounded at_r)
                (λ r er.
                  let hl = bounded.small _ k l at_l el in
                  let hr = bounded.small _ k r at_r er in
                  refresh-IsBounded fuel (parent index) (suc k) (set xs (parent index) (max l r))
                    at_p
                    (IsBounded-set logn xs (parent index) (suc k) (max l r) bounded at_p
                      (omega arith))
                    (omega arith))))
  ]

node_size-suc : (v : ℕ) → node_size (suc v) ≡ 2 ^ v
node_size-suc v =
    let some_left : (suc v == 0) ≡ false = ground arith in
    let e : suc v - 1 ≡ v = omega arith in rw (some_left, e) refl

-- Let the array of a buddy allocator have its nodes, none of them with a value above its height
-- plus one, and let the size be rounded to `2 ^ e` units. With more fuel than `logn`, `buddy_alloc`
-- returns without leaving the array: -1, and nothing has changed; or an offset that is a multiple
-- of `2 ^ e`, at which so many units lie within the whole, and no value of the array is above its
-- bound then.
pub buddy_alloc-IsRoom :
    (fuel : ℕ) (b : Buddy) (size e : ℕ)
    → IsBounded b.logn b.longest
    → rounded size ≡ 2 ^ e
    → b.logn < fuel
    → Returns (IsRoom b e) (buddy_alloc fuel b size)
unfolding buddy_alloc
buddy_alloc-IsRoom fuel b size e bounded fits enough =
    let root : IsAt b.logn 1 b.logn = top refl refl in
    rw fits (
      Returns-bind _ _ (load b.longest 0) _ (node-Returns b.logn b.longest 0 b.logn bounded root)
        (λ whole ew. elim (Bool-cases (ltb (node_size whole) (2 ^ e))) [
          | inl full ↦ rw full (refl, refl)
          | inr room ↦
              let le : e ≤ b.logn =
                small_enough whole (bounded.small 0 b.logn whole root ew) room in
              rw room (
                Returns-bind _ _ (descend fuel b.longest (2 ^ e) (2 ^ b.logn) 0) _
                  (descend-IsAt b.logn fuel b.logn e 0 b.longest le root bounded (omega arith))
                  alloc_at-IsRoom)
        ]))
  where
    small_enough :
        (whole : ℕ) → whole ≤ suc b.logn → ltb (node_size whole) (2 ^ e) ≡ false → e ≤ b.logn
    small_enough zero h room = let p = positive e in absurd (ground arith)
    small_enough (suc v) h room = elim (Bool-cases (leb e b.logn)) [
      | inl ok ↦ ground arith
      | inr above ↦
          let last : e ≡ suc (e - 1) = ground arith in
          let bigger : 2 ^ v < 2 ^ suc (e - 1) = grows v (e - 1) (ground arith) in
          let bigger' : 2 ^ v < 2 ^ e = subst (λ n. 2 ^ v < 2 ^ n) (sym last) bigger in
          let room' : ltb (2 ^ v) (2 ^ e) ≡ false = rw (node_size-suc v) at room in
          absurd (ground arith)
    ]

    alloc_at-IsRoom :
        (r : ℕ × ℕ)
        → IsAt b.logn (suc r.0) e × (r.1 ≡ 2 ^ e)
        → Returns (IsRoom b e) (alloc_at fuel b r)
    alloc_at-IsRoom (index, node) (at, node_e) =
        let s = IsAt-Spans b.logn (suc index) e at in
        let span = s.ends in
        let offset : (index + 1) * node - 2 ^ b.logn ≡ s.times * 2 ^ e =
          let q : index + 1 ≡ suc index = omega arith in rw (q, node_e, s.starts) (omega arith) in
        Returns-bind _ _ (load b.longest index) _ (node-Returns b.logn b.longest index e bounded at)
          (λ old eo.
            Returns-bind _ _ (refresh fuel index (set b.longest index 0)) _
              (refresh-IsBounded b.logn fuel index e (set b.longest index 0) at
                (IsBounded-set b.logn b.longest index e 0 bounded at (omega arith)) (omega arith))
              (λ xs bounded'. ((s.times, offset), omega arith, refl, bounded')))
