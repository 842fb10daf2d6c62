-- ===== src/BitScan/Trailing.antt =====
-- c/src/mem_slot.c: trailing zeros of 32-bit and 64-bit words.
use native.Mathlib.Nat.{div-add-mod', mod-lt, mul-add-mod_self_right, mod-eq_of_lt}
use artorias.Prelude.{
  ℕ, ◌+◌, ◌-◌, ◌*◌, ◌/◌, ◌%◌, ◌^◌, ◌<◌, ◌≡◌, refl, ◌≢◌, inl, inr, arith, ap, sym, ◌∙◌, ◌==◌,
  bit_and, Bool-cases,
}
use artorias.Prelude.Bits.{bit_and-ones}
use artorias.BitScan.{
  Scan, scan, bits_cl0_u32, bits_cl0_u64, ct0_step, ct0_last, bits_ct0_u32, bits_ct0_u64,
}
use artorias.BitScan.Wide.{pow_add, IsTop, IsLow, pos_pow, bits_cl0-IsTop}

-- A scan for the trailing zeros: `s.n` bits of `x` were zero and are shifted out, and one of the
-- `2 ^ h` lowest bits that are left is set.
record Trailing (x h : ℕ) (s : Scan) : Type 0 where
  some_bit : s.x % 2 ^ h ≢ 0
  split : x ≡ s.x * 2 ^ s.n

and_low : (h y : ℕ) → bit_and y (2 ^ h - 1) ≡ y % 2 ^ h
and_low h y =
    let e : y ≡ y / 2 ^ h * 2 ^ h + y % 2 ^ h = sym (div-add-mod' y (2 ^ h)) in
    ap (λ t. bit_and t (2 ^ h - 1)) e
    ∙ bit_and-ones h (y / 2 ^ h) (y % 2 ^ h) (mod-lt y (pos_pow h))

-- If the `h` lowest bits are zero, the next `h` bits hold what the `2 * h` lowest bits held.
mod_halves : (h y : ℕ) → y % 2 ^ h ≡ 0 → y / 2 ^ h % 2 ^ h ≡ 0 → y % 2 ^ (h + h) ≡ 0
mod_halves h y e f =
    let q = y / 2 ^ h in
    let a : q / 2 ^ h * 2 ^ h ≡ q = omega (arith, div-add-mod' q (2 ^ h)) in
    let b : y ≡ q / 2 ^ h * 2 ^ (h + h) + 0 = omega (
      arith,
      div-add-mod' y (2 ^ h),
      ap (λ (t : ℕ). t * 2 ^ h) a,
      ap (λ (t : ℕ). q / 2 ^ h * t) (pow_add h h),
    ) in
    ap (λ t. t % 2 ^ (h + h)) b
    ∙ mul-add-mod_self_right (q / 2 ^ h) (2 ^ (h + h)) 0
    ∙ mod-eq_of_lt (pos_pow (h + h))

module _ (x h mask : ℕ) (is_mask : mask ≡ 2 ^ h - 1) where
  ct0_step-Trailing : (s : Scan) → Trailing x (h + h) s → Trailing x h (ct0_step mask h s)
  unfolding ct0_step
  ct0_step-Trailing s l =
      let kept : bit_and s.x mask ≡ s.x % 2 ^ h = rw is_mask (and_low h s.x) in
      elim (Bool-cases (bit_and s.x mask == 0)) [
        | inl clear ↦
            let zero_low : s.x % 2 ^ h ≡ 0 = ground arith in
            rw clear (record {
              some_bit = λ z. l.some_bit (mod_halves h s.x zero_low z);
              split = omega (
                arith,
                l.split,
                ap (λ (t : ℕ). t * 2 ^ s.n) (div-add-mod' s.x (2 ^ h)),
                ap (λ (t : ℕ). s.x / 2 ^ h * t) (pow_add s.n h),
                ap (λ (t : ℕ). t * 2 ^ s.n) zero_low,
              );
            })
        | inr set_bit ↦ rw set_bit (record { some_bit = ground arith; split = l.split })
      ]

ct0_last-IsLow : (x : ℕ) (s : Scan) → Trailing x 2 s → IsLow x (ct0_last s)
unfolding ct0_last
ct0_last-IsLow x s l =
    let kept : bit_and s.x 1 ≡ s.x % 2 = and_low 1 s.x in
    elim (Bool-cases (bit_and s.x 1 == 0)) [
      | inl clear ↦
          let even : s.x ≡ s.x / 2 * 2 = ground arith in
          let odd : s.x / 2 % 2 ≡ 1 = ground (arith, l.some_bit) in
          rw clear (
            s.x / 2,
            omega (
              arith,
              l.split,
              ap (λ (t : ℕ). t * 2 ^ s.n) even,
              ap (λ (t : ℕ). s.x / 2 * t) (pow_add s.n 1),
            ),
            odd,
          )
      | inr set_bit ↦ rw set_bit (s.x, l.split, ground arith)
    ]

-- For a nonzero word of 32 bits, the count of trailing zeros is the position of the lowest set bit.
bits_ct0_u32-IsLow : (x : ℕ) → 0 < x → x < 2 ^ 32 → IsLow x (bits_ct0_u32 x)
unfolding bits_ct0_u32
bits_ct0_u32-IsLow x pos small = ct0_last-IsLow x _ (
    ct0_step-Trailing x 2 0x3 refl _ (
      ct0_step-Trailing x 4 0xf refl _ (
        ct0_step-Trailing x 8 0xff refl _ (
          ct0_step-Trailing x 16 0xffff refl (scan 0 x)
            (record { some_bit = omega arith; split = omega arith })))))

-- For a nonzero word of 64 bits, the count of trailing zeros is the position of the lowest set bit.
bits_ct0_u64-IsLow : (x : ℕ) → 0 < x → x < 2 ^ 64 → IsLow x (bits_ct0_u64 x)
unfolding bits_ct0_u64
bits_ct0_u64-IsLow x pos small = ct0_last-IsLow x _ (
    ct0_step-Trailing x 2 0x3 refl _ (
      ct0_step-Trailing x 4 0xf refl _ (
        ct0_step-Trailing x 8 0xff refl _ (
          ct0_step-Trailing x 16 0xffff refl _ (
            ct0_step-Trailing x 32 0xffffffff refl (scan 0 x)
              (record { some_bit = omega arith; split = omega arith }))))))

-- For a nonzero word of 32 bits and one of 64 bits, the counts of trailing zeros are the positions
-- of the lowest set bits.
bits_ct0-IsLow :
    (x y : ℕ)
    → 0 < x
    → x < 2 ^ 32
    → 0 < y
    → y < 2 ^ 64
    → IsLow x (bits_ct0_u32 x) × IsLow y (bits_ct0_u64 y)
bits_ct0-IsLow x y x_pos x_small y_pos y_small =
    (bits_ct0_u32-IsLow x x_pos x_small, bits_ct0_u64-IsLow y y_pos y_small)

-- For a nonzero word of 32 bits and one of 64 bits, the counts of leading zeros are below 32 and 64
-- and name the highest set bits, and the counts of trailing zeros are the positions of the lowest
-- set bits.
pub bits-IsTop-IsLow :
    (x y : ℕ)
    → 0 < x
    → x < 2 ^ 32
    → 0 < y
    → y < 2 ^ 64
    → ((IsTop x (31 - bits_cl0_u32 x) × (bits_cl0_u32 x < 32))
        × (IsTop y (63 - bits_cl0_u64 y) × (bits_cl0_u64 y < 64)))
      × (IsLow x (bits_ct0_u32 x) × IsLow y (bits_ct0_u64 y))
bits-IsTop-IsLow x y x_pos x_small y_pos y_small =
    (bits_cl0-IsTop x y x_pos x_small y_pos y_small, bits_ct0-IsLow x y x_pos x_small y_pos y_small)
