-- ===== src/BitScan/Byte.antt =====
-- c/src/mem_slot.c: the byte versions, checked on every byte.
use artorias.Prelude.{
  ℕ, ◌-◌, ◌≤◌, ◌<◌, ◌≡◌, refl, ◌≢◌, Bool, true, ◌&&◌, ◌||◌, not, arith, ◌==◌, ltb, leb, all_below,
  all_below_sound,
}
use artorias.Prelude.Bits.{bit}
use artorias.BitScan.{bits_cl0_u8, bits_ct0_u8}

cl0_fits : ℕ → Bool
cl0_fits x =
    (x == 0)
    || (ltb (bits_cl0_u8 x) 8
        && bit x (7 - bits_cl0_u8 x) == 1
        && all_below 8 (λ j. not (ltb j (bits_cl0_u8 x)) || (bit x (7 - j) == 0)))

cl0_table : all_below 256 cl0_fits ≡ true
unfolding all_below cl0_fits bits_cl0_u8
cl0_table = refl

module _ (x : ℕ) (small : x < 256) (some_bit : x ≢ 0) where
  -- The count of leading zeros of a nonzero byte is below 8, and that many bits are zero.
  pub bits_cl0_u8-lt : bits_cl0_u8 x < 8
  unfolding cl0_fits
  bits_cl0_u8-lt = ground (arith, all_below_sound 256 cl0_fits x cl0_table)

  pub bits_cl0_u8-zero : (j : ℕ) → j < bits_cl0_u8 x → bit x (7 - j) ≡ 0
  unfolding cl0_fits
  bits_cl0_u8-zero j h = ground (
    arith,
    all_below_sound 256 cl0_fits x cl0_table,
    bits_cl0_u8-lt,
    all_below_sound 8 (λ j. not (ltb j (bits_cl0_u8 x)) || (bit x (7 - j) == 0)) j,
  )

  pub bits_cl0_u8-one : bit x (7 - bits_cl0_u8 x) ≡ 1
  unfolding cl0_fits
  bits_cl0_u8-one = ground (arith, all_below_sound 256 cl0_fits x cl0_table)

ct0_fits : ℕ → Bool
ct0_fits x =
    (x == 0)
    || (ltb (bits_ct0_u8 x) 8
        && all_below 8 (λ j. not (leb (8 - bits_ct0_u8 x) j) || (bit x (7 - j) == 0)))

ct0_table : all_below 256 ct0_fits ≡ true
unfolding all_below ct0_fits bits_ct0_u8
ct0_table = refl

module _ (x : ℕ) (small : x < 256) (some_bit : x ≢ 0) where
  pub bits_ct0_u8-lt : bits_ct0_u8 x < 8
  unfolding ct0_fits
  bits_ct0_u8-lt = ground (arith, all_below_sound 256 ct0_fits x ct0_table)

  pub bits_ct0_u8-zero : (j : ℕ) → 8 - bits_ct0_u8 x ≤ j → j < 8 → bit x (7 - j) ≡ 0
  unfolding ct0_fits
  bits_ct0_u8-zero j h l = ground (
    arith,
    all_below_sound 256 ct0_fits x ct0_table,
    bits_ct0_u8-lt,
    all_below_sound 8 (λ j. not (leb (8 - bits_ct0_u8 x) j) || (bit x (7 - j) == 0)) j,
  )
