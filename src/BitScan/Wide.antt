-- ===== src/BitScan/Wide.antt =====
-- c/src/mem_slot.c: leading zeros of 32-bit and 64-bit words. Each step keeps what the rest of the word
-- says about the whole of it.
use native.Mathlib.Nat.{pow-suc, one-le-pow, div-add-mod', mod-lt, div-lt_iff_lt-mul}
use artorias.Prelude.{
  ℕ, zero, suc, ◌+◌, ◌-◌, ◌*◌, ◌/◌, ◌%◌, ◌^◌, ◌≤◌, ◌<◌, ◌≡◌, refl, ◌≢◌, inl, inr, arith, ap, sym,
  ◌∙◌, ◌==◌, bit_and, Bool-cases,
}
use artorias.Prelude.Bits.{bit_and-ones, bit_and-shifted}
use artorias.BitScan.{Scan, scan, cl0_step, cl0_last, bits_cl0_u32, bits_cl0_u64}

pub pow_add : (k h : ℕ) → 2 ^ (k + h) ≡ 2 ^ k * 2 ^ h
pow_add k zero = let e : k + 0 ≡ k = omega arith in rw e (omega arith)
pow_add k (suc h) =
    let e : k + suc h ≡ suc (k + h) = omega arith in
    rw e (
      omega (
        arith,
        pow-suc 2 (k + h),
        pow-suc 2 h,
        pow_add k h,
        ap (λ (t : ℕ). 2 ^ k * t) (pow-suc 2 h),
      ))

-- `k` is the position of the highest set bit of `x`.
abbrev pub IsTop : ℕ → ℕ → Type 0
IsTop x k = (2 ^ k ≤ x) × (x < 2 ^ k + 2 ^ k)

-- `k` is the position of the lowest set bit of `x`.
abbrev pub IsLow : ℕ → ℕ → Type 0
IsLow x k = (m : ℕ) × (x ≡ m * 2 ^ k) × (m % 2 ≡ 1)

mul_mono : (a b c : ℕ) → a ≤ b → a * c ≤ b * c
mul_mono a b c h = grind arith

module _ (h q k : ℕ) where
  IsTop-shift : (r : ℕ) → r < 2 ^ h → IsTop q k → IsTop (q * 2 ^ h + r) (k + h)
  IsTop-shift r small top = rw (pow_add k h) (
    omega (arith, mul_mono (2 ^ k) q (2 ^ h) top.0),
    omega (arith, mul_mono (q + 1) (2 ^ k + 2 ^ k) (2 ^ h) (omega arith)),
  )

  IsLow-shift : IsLow q k → IsLow (q * 2 ^ h) (k + h)
  IsLow-shift (m, e, odd) = (m, rw (pow_add k h, e) (omega arith), odd)

-- A scan for the leading zeros of the word `x` of `w` bits: `s.x` is `x` shifted right by `d`,
-- not zero and below `2 ^ h`.
record Leading (w x h : ℕ) (s : Scan) : Type 0 where
  pos : 0 < s.x
  small : s.x < 2 ^ h
  room : h ≤ s.n + 1
  d : ℕ
  r : ℕ
  r_small : r < 2 ^ d
  split : x ≡ s.x * 2 ^ d + r
  count : s.n + d + 1 ≡ w

pub pos_pow : (h : ℕ) → 0 < 2 ^ h
pos_pow h = one-le-pow h 2 (omega arith)

div_pow_small : (h y : ℕ) → y < 2 ^ (h + h) → y / 2 ^ h < 2 ^ h
div_pow_small h y small = (div-lt_iff_lt-mul (pos_pow h)).1 (omega (arith, pow_add h h))

-- The mask of the upper half of `2 * h` bits keeps what a shift by `h` keeps.
and_high : (h y : ℕ) → y < 2 ^ (h + h) → bit_and y ((2 ^ h - 1) * 2 ^ h) ≡ y / 2 ^ h * 2 ^ h
and_high h y small =
    let e : y ≡ y / 2 ^ h * 2 ^ h + y % 2 ^ h = sym (div-add-mod' y (2 ^ h)) in
    let z : 0 * 2 ^ h + y / 2 ^ h ≡ y / 2 ^ h = omega arith in
    ap (λ t. bit_and t ((2 ^ h - 1) * 2 ^ h)) e
    ∙ bit_and-shifted h (y / 2 ^ h) (y % 2 ^ h) (2 ^ h - 1) (mod-lt y (pos_pow h))
    ∙ ap (λ t. t * 2 ^ h)
        (ap (λ t. bit_and t (2 ^ h - 1)) (sym z)
          ∙ bit_and-ones h 0 (y / 2 ^ h) (div_pow_small h y small))

factor_pos : (q p : ℕ) → q * p ≢ 0 → 0 < q
factor_pos zero p h = absurd (h (omega arith))
factor_pos (suc q) p h = omega arith

module _ (w x h mask : ℕ) (is_mask : mask ≡ (2 ^ h - 1) * 2 ^ h) (some_h : 0 < h) where
  cl0_step-Leading : (s : Scan) → Leading w x (h + h) s → Leading w x h (cl0_step mask h s)
  unfolding cl0_step
  cl0_step-Leading s l =
      let kept : bit_and s.x mask ≡ s.x / 2 ^ h * 2 ^ h = rw is_mask (and_high h s.x l.small) in
      let whole : s.x / 2 ^ h * 2 ^ h + s.x % 2 ^ h ≡ s.x = div-add-mod' s.x (2 ^ h) in
      let low : s.x % 2 ^ h < 2 ^ h = mod-lt s.x (pos_pow h) in
      elim (Bool-cases (bit_and s.x mask == 0)) [
        | inl none_set ↦ rw none_set (record {
          pos = l.pos;
          small = ground arith;
          room = omega (arith, l.room);
          d = l.d;
          r = l.r;
          r_small = l.r_small;
          split = l.split;
          count = l.count;
        })
        | inr some_set ↦ rw some_set (record {
          pos = factor_pos (s.x / 2 ^ h) (2 ^ h) (ground arith);
          small = div_pow_small h s.x l.small;
          room = omega (arith, l.room);
          d = l.d + h;
          r = s.x % 2 ^ h * 2 ^ l.d + l.r;
          r_small = omega (
            arith,
            pow_add l.d h,
            l.r_small,
            mul_mono (s.x % 2 ^ h + 1) (2 ^ h) (2 ^ l.d) (omega arith),
          );
          split = omega (
            arith,
            l.split,
            pow_add l.d h,
            ap (λ (t : ℕ). t * 2 ^ l.d) whole,
            ap (λ (t : ℕ). s.x / 2 ^ h * t) (pow_add l.d h),
          );
          count = omega (arith, l.count, l.room);
        })
      ]

module _ (w x : ℕ) where
  cl0_last-IsTop : (s : Scan) → Leading w x 2 s → IsTop x (w - 1 - cl0_last s) × (cl0_last s < w)
  unfolding cl0_last
  cl0_last-IsTop s l =
      let kept : bit_and s.x 2 ≡ s.x / 2 * 2 = and_high 1 s.x l.small in
      elim (Bool-cases (bit_and s.x 2 == 0)) [
        | inl clear ↦ rw clear (
          let one : s.x ≡ 1 = ground (arith, l.pos) in
              let d : w - 1 - s.n ≡ 0 + l.d = omega arith in
              rw (d, l.split) (IsTop-shift l.d s.x 0 l.r l.r_small (omega arith)),
          omega arith,
        )
        | inr set_bit ↦ rw set_bit (
          let two : 2 ≤ s.x = ground (arith, l.pos) in
              let d : w - 1 - (s.n - 1) ≡ 1 + l.d = omega arith in
              rw (d, l.split) (IsTop-shift l.d s.x 1 l.r l.r_small (omega arith)),
          omega arith,
        )
      ]

-- For a nonzero word of 32 bits, the count of leading zeros is below 32 and names the highest set
-- bit.
bits_cl0_u32-IsTop :
    (x : ℕ) → 0 < x → x < 2 ^ 32 → IsTop x (31 - bits_cl0_u32 x) × (bits_cl0_u32 x < 32)
unfolding bits_cl0_u32
bits_cl0_u32-IsTop x pos small = cl0_last-IsTop 32 x _ (
    cl0_step-Leading 32 x 2 0xc refl (omega arith) _ (
      cl0_step-Leading 32 x 4 0xf0 refl (omega arith) _ (
        cl0_step-Leading 32 x 8 0xff00 refl (omega arith) _ (
          cl0_step-Leading 32 x 16 0xffff0000 refl (omega arith) (scan 31 x) (record {
            pos = pos;
            small = small;
            room = omega arith;
            d = 0;
            r = 0;
            r_small = omega arith;
            split = omega arith;
            count = refl;
          })))))

-- For a nonzero word of 64 bits, the count of leading zeros is below 64 and names the highest set
-- bit.
bits_cl0_u64-IsTop :
    (x : ℕ) → 0 < x → x < 2 ^ 64 → IsTop x (63 - bits_cl0_u64 x) × (bits_cl0_u64 x < 64)
unfolding bits_cl0_u64
bits_cl0_u64-IsTop x pos small = cl0_last-IsTop 64 x _ (
    cl0_step-Leading 64 x 2 0xc refl (omega arith) _ (
      cl0_step-Leading 64 x 4 0xf0 refl (omega arith) _ (
        cl0_step-Leading 64 x 8 0xff00 refl (omega arith) _ (
          cl0_step-Leading 64 x 16 0xffff0000 refl (omega arith) _ (
            cl0_step-Leading 64 x 32 0xffffffff00000000 refl (omega arith) (scan 63 x) (record {
              pos = pos;
              small = small;
              room = omega arith;
              d = 0;
              r = 0;
              r_small = omega arith;
              split = omega arith;
              count = refl;
            }))))))

-- For a nonzero word of 32 bits and one of 64 bits, the counts of leading zeros are below 32 and 64
-- and name the highest set bits.
pub bits_cl0-IsTop :
    (x y : ℕ)
    → 0 < x
    → x < 2 ^ 32
    → 0 < y
    → y < 2 ^ 64
    → (IsTop x (31 - bits_cl0_u32 x) × (bits_cl0_u32 x < 32))
      × (IsTop y (63 - bits_cl0_u64 y) × (bits_cl0_u64 y < 64))
bits_cl0-IsTop x y x_pos x_small y_pos y_small =
    (bits_cl0_u32-IsTop x x_pos x_small, bits_cl0_u64-IsTop y y_pos y_small)
