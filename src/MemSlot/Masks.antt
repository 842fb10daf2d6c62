-- ===== src/MemSlot/Masks.antt =====
-- c/src/mem_slot.c: the masks of `mark_used_flag` and `mark_free_flag`, digit by digit.
use native.Mathlib.Nat.{div-le_self}
use artorias.Prelude.{
  ℕ, ◌-◌, ◌*◌, ◌/◌, ◌%◌, ◌^◌, ◌<◌, ◌≡◌, refl, Bool, true, arith, ◌==◌, ltb, leb, if◌then◌else◌,
  bit_and, all_below, all_below_sound,
}
use artorias.Prelude.Bits.{bit, bit_and-le}
use artorias.MemSlot.{head_mask, tail_mask}

-- The two masks, digit by digit.
head_digit : ℕ → ℕ → Bool
head_digit a j = bit (0xff / 2 ^ a) (7 - j) == (if leb a j then 1 else 0)

head_table : all_below 8 (λ a. all_below 8 (head_digit a)) ≡ true
unfolding all_below head_digit
head_table = refl

tail_digit : ℕ → ℕ → Bool
tail_digit e j = bit (0xff * 2 ^ (8 - e)) (7 - j) == (if ltb j e then 1 else 0)

tail_table : all_below 8 (λ a. all_below 8 (tail_digit a)) ≡ true
unfolding all_below tail_digit
tail_table = refl

module _ (a j : ℕ) (ha : a < 8) (hj : j < 8) where
  head_bit : bit (0xff / 2 ^ a) (7 - j) ≡ (if leb a j then 1 else 0)
  head_bit =
      let row = all_below_sound 8 (λ a. all_below 8 (head_digit a)) a head_table ha in
      let cell = all_below_sound 8 (head_digit a) j row hj in
      unfold head_digit in ground (arith, cell)

  tail_bit : bit (0xff * 2 ^ (8 - a)) (7 - j) ≡ (if ltb j a then 1 else 0)
  tail_bit =
      let row = all_below_sound 8 (λ a. all_below 8 (tail_digit a)) a tail_table ha in
      let cell = all_below_sound 8 (tail_digit a) j row hj in
      unfold tail_digit in ground (arith, cell)

pub head_mask-bit :
    (o p : ℕ) → bit (head_mask o) (7 - p % 8) ≡ (if leb (o % 8) (p % 8) then 1 else 0)
unfolding head_mask
head_mask-bit o p = head_bit (o % 8) (p % 8) (omega arith) (omega arith)

pub tail_mask-bit :
    (o p : ℕ) → bit (tail_mask o) (7 - p % 8) ≡ (if ltb (p % 8) (o % 8) then 1 else 0)
unfolding tail_mask
tail_mask-bit o p = tail_bit (o % 8) (p % 8) (omega arith) (omega arith)

tail_small : all_below 8 (λ e. ltb (0xff * 2 ^ (8 - e)) (2 ^ 32)) ≡ true
unfolding all_below
tail_small = refl

pub head_mask-lt : (o : ℕ) → head_mask o < 2 ^ 32
unfolding head_mask
head_mask-lt o = omega (arith, div-le_self 0xff (2 ^ (o % 8)))

pub tail_mask-lt : (o : ℕ) → tail_mask o < 2 ^ 32
unfolding tail_mask
tail_mask-lt o = ground (
  arith,
  all_below_sound 8 (λ e. ltb (0xff * 2 ^ (8 - e)) (2 ^ 32)) (o % 8) tail_small (omega arith),
)

pub both_masks-lt : (o o' : ℕ) → bit_and (head_mask o) (tail_mask o') < 2 ^ 32
both_masks-lt o o' = omega (arith, bit_and-le (head_mask o) (tail_mask o'), head_mask-lt o)
