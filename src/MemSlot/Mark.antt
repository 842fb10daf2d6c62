-- ===== src/MemSlot/Mark.antt =====
-- c/src/mem_slot.c: `mark_used_flag` and `mark_free_flag` change the units of a range and no other.
use artorias.Prelude.{
  ℕ, zero, suc, ◌+◌, ◌-◌, ◌*◌, ◌/◌, ◌%◌, ◌^◌, ◌≤◌, ◌<◌, ◌≡◌, refl, ◌⊎◌, ◌≢◌, inl, inr, true, false,
  ◌∙◌, none, some, List, arith, ◌==◌, ltb, leb, if◌then◌else◌, length, get_or, set, length-set,
  get_or-set, update-some, update-none, bit_and, all_below, all_below_sound, Bool-cases,
}
use artorias.Prelude.Bits.{bit, bit-le, bit-bit_or, bit-bit_and, bit_complement, bit-byte}
use artorias.MemSlot.{
  head_mask, tail_mask, or_mask, clear_mask, fill_flag, mark_flag, mark_used_flag, mark_free_flag,
  unit_at,
}
use artorias.MemSlot.Masks.{head_mask-bit, tail_mask-bit, head_mask-lt, tail_mask-lt, both_masks-lt}

-- `g` is `flag` with the units from `lo` up to `hi` set to `c`, and the others as they were.
pub record Marked (c lo hi : ℕ) (flag g : List ℕ) : Type 0 where
  pub size : length g ≡ length flag
  pub bytes : ((i : ℕ) → get_or flag i 0 < 256) → (i : ℕ) → get_or g i 0 < 256
  pub inside : (p : ℕ) → lo ≤ p → p < hi → unit_at g p ≡ c
  pub outside : (p : ℕ) → (p < lo) ⊎ (hi ≤ p) → unit_at g p ≡ unit_at flag p

-- A way to put digits `c` into a byte wherever a mask has a one.
record Puts (c : ℕ) (put : ℕ → ℕ → ℕ) (v : ℕ) : Type 0 where
  digit : (m b k : ℕ) → k < 8 → m < 2 ^ 32 → bit (put m b) k ≡ (if bit m k == 1 then c else bit b k)
  byte : (m b : ℕ) → put m b < 256
  fill : (k : ℕ) → k < 8 → bit v k ≡ c
  fill_byte : v < 256

module _ (c : ℕ) (put : ℕ → ℕ → ℕ) (v : ℕ) (puts : Puts c put v) where
  -- The bytes from `j` on, as many as `count`, are `v`; the others are kept.
  fill_flag-some :
      (count j : ℕ) (flag : List ℕ)
      → j + count ≤ length flag
      → (g : List ℕ) × (fill_flag v count j flag ≡ some g)
        × (length g ≡ length flag)
        × ((q : ℕ)
            → get_or g q 0 ≡ (
                if leb j q
                then if ltb q (j + count) then v else get_or flag q 0
                else get_or flag q 0))
  unfolding fill_flag
  fill_flag-some zero j flag h = (flag, refl, refl, λ q. ground arith)
  fill_flag-some (suc count) j flag h =
      let flag' = set flag j v in
      let (g, e, l, at) = fill_flag-some count (j + 1) flag' (omega (arith, length-set flag j v)) in
      (
        g,
        rw (update-some flag j (λ _. v) 0 (omega arith)) e,
        l ∙ length-set flag j v,
        λ q. ground (arith, at q, get_or-set flag j q v 0),
      )

  -- One masked write, unit by unit.
  unit_at-put :
      (flag : List ℕ) (i m p : ℕ)
      → i < length flag
      → m < 2 ^ 32
      → unit_at (set flag i (put m (get_or flag i 0))) p ≡ (
          if p / 8 == i
          then if bit m (7 - p % 8) == 1 then c else unit_at flag p
          else unit_at flag p)
  unit_at-put flag i m p h small =
      rw (get_or-set flag i (p / 8) (put m (get_or flag i 0)) 0 h) (elim (Bool-cases (p / 8 == i)) [
        | inl here ↦
            let e : p / 8 ≡ i = ground arith in
            let hit : (i == i) ≡ true = ground arith in
            rw (e, hit) (puts.digit m (get_or flag i 0) (7 - p % 8) (omega arith) small)
        | inr away ↦ rw away
      ])

  get_or-put-lt :
      (flag : List ℕ) (i m : ℕ)
      → i < length flag
      → ((j : ℕ) → get_or flag j 0 < 256)
      → (j : ℕ) → get_or (set flag i (put m (get_or flag i 0))) j 0 < 256
  get_or-put-lt flag i m h small j = ground (
    arith,
    get_or-set flag i j (put m (get_or flag i 0)) 0,
    puts.byte m (get_or flag i 0),
    small j,
  )

module _ (c : ℕ) (put : ℕ → ℕ → ℕ) (v : ℕ) (puts : Puts c put v) (flag : List ℕ) (offset len : ℕ)
    (h : offset + len < length flag * 8) where
  mark_flag_one :
      offset / 8 ≡ (offset + len) / 8
      → (g : List ℕ) × (mark_flag put v flag offset len ≡ some g)
        × Marked c offset (offset + len) flag g
  unfolding mark_flag
  mark_flag_one e =
      let i = offset / 8 in
      let m = bit_and (head_mask offset) (tail_mask (offset + len)) in
      let in_range : i < length flag = omega arith in
      let one : (i == (offset + len) / 8) ≡ true = ground arith in
      let at = λ (p : ℕ).
        unit_at-put c put v puts flag i m p in_range (both_masks-lt offset (offset + len)) in
      let digit =
        λ (p : ℕ). bit-bit_and (7 - p % 8) (head_mask offset) (tail_mask (offset + len)) in
      (
        set flag i (put m (get_or flag i 0)),
        rw one (update-some flag i (put m) 0 in_range),
        record {
          size = length-set flag i (put m (get_or flag i 0));
          bytes = get_or-put-lt c put v puts flag i m in_range;
          inside = λ p lo hi.
              ground (arith, at p, digit p, head_mask-bit offset p, tail_mask-bit (offset + len) p);
          outside = λ p away.
              ground (arith, at p, digit p, head_mask-bit offset p, tail_mask-bit (offset + len) p);
        },
      )

  mark_flag_many :
      offset / 8 ≢ (offset + len) / 8
      → (g : List ℕ) × (mark_flag put v flag offset len ≡ some g)
        × Marked c offset (offset + len) flag g
  unfolding mark_flag
  mark_flag_many ne =
      let i = offset / 8 in
      let i0 = (offset + len) / 8 in
      let first = set flag i (put (head_mask offset) (get_or flag i 0)) in
      let first_size : length first ≡ length flag = length-set flag i _ in
      let second = set first i0 (put (tail_mask (offset + len)) (get_or first i0 0)) in
      let second_size : length second ≡ length flag = length-set first i0 _ ∙ first_size in
      let in_range : i < length flag = omega arith in
      let in_range0 : i0 < length first = omega arith in
      let many : (i == i0) ≡ false = ground arith in
      let (g, filled, size, at) =
        fill_flag-some c put v puts (i0 - (i + 1)) (i + 1) second (omega arith) in
      let at1 = λ (p : ℕ).
        unit_at-put c put v puts flag i (head_mask offset) p in_range (head_mask-lt offset) in
      let at2 = λ (p : ℕ).
        unit_at-put c put v puts first i0 (tail_mask (offset + len)) p in_range0
          (tail_mask-lt (offset + len)) in
      let middle = λ (p : ℕ). puts.fill (7 - p % 8) (omega arith) in
      (
        g,
        rw
            (
              many,
              update-some flag i (put (head_mask offset)) 0 in_range,
              update-some first i0 (put (tail_mask (offset + len))) 0 in_range0,
            )
            filled,
        record {
          size = size ∙ second_size;
          bytes = λ small j.
              let small1 = get_or-put-lt c put v puts flag i (head_mask offset) in_range small in
              let small2 =
                get_or-put-lt c put v puts first i0 (tail_mask (offset + len)) in_range0 small1 in
              ground (arith, at j, small2 j, puts.fill_byte);
          inside = λ p lo hi. ground (
            arith,
            at (p / 8),
            at1 p,
            at2 p,
            middle p,
            head_mask-bit offset p,
            tail_mask-bit (offset + len) p,
          );
          outside = λ p away. ground (
            arith,
            at (p / 8),
            at1 p,
            at2 p,
            head_mask-bit offset p,
            tail_mask-bit (offset + len) p,
          );
        },
      )

  mark_flag-Marked :
      (g : List ℕ) × (mark_flag put v flag offset len ≡ some g)
      × Marked c offset (offset + len) flag g
  mark_flag-Marked = elim (Bool-cases (offset / 8 == (offset + len) / 8)) [
    | inl one ↦ mark_flag_one (ground arith)
    | inr many ↦ mark_flag_many (ground arith)
  ]

ones_table : all_below 8 (λ k. bit 0xff k == 1) ≡ true
unfolding all_below
ones_table = refl

zeros_table : all_below 8 (λ k. bit 0 k == 0) ≡ true
unfolding all_below
zeros_table = refl

used-Puts : Puts 1 or_mask 0xff
unfolding or_mask
used-Puts = record {
  digit = λ m b k hk small. rw bit-byte (ground (arith, bit-bit_or k b m, bit-le k m, bit-le k b));
  byte = λ m b. omega arith;
  fill = λ k hk. ground (arith, all_below_sound 8 (λ k. bit 0xff k == 1) k ones_table);
  fill_byte = omega arith;
}

free-Puts : Puts 0 clear_mask 0
unfolding clear_mask
free-Puts = record {
  digit = λ m b k hk small. rw bit-byte (
      ground
        (arith, bit-bit_and k b (2 ^ 32 - 1 - m), bit_complement 32 k m, bit-le k m, bit-le k b));
  byte = λ m b. omega arith;
  fill = λ k hk. ground (arith, all_below_sound 8 (λ k. bit 0 k == 0) k zeros_table);
  fill_byte = omega arith;
}

module _ (flag : List ℕ) (offset len : ℕ) (h : offset + len < length flag * 8) where
  -- On a range that ends before the last unit of the flags, `mark_used_flag` stays in bounds, sets
  -- every unit of the range and changes no other.
  pub mark_used_flag-Marked :
      (g : List ℕ) × (mark_used_flag flag offset len ≡ some g)
      × Marked 1 offset (offset + len) flag g
  unfolding mark_used_flag
  mark_used_flag-Marked = mark_flag-Marked 1 or_mask 0xff used-Puts flag offset len h

  -- On a range that ends before the last unit of the flags, `mark_free_flag` stays in bounds,
  -- clears every unit of the range and changes no other.
  pub mark_free_flag-Marked :
      (g : List ℕ) × (mark_free_flag flag offset len ≡ some g)
      × Marked 0 offset (offset + len) flag g
  unfolding mark_free_flag
  mark_free_flag-Marked = mark_flag-Marked 0 clear_mask 0 free-Puts flag offset len h

-- A range that ends with the last unit makes both functions touch the byte behind the flags.
pub mark_flag_edge :
    (put : ℕ → ℕ → ℕ) (v : ℕ) (flag : List ℕ) (offset len : ℕ)
    → offset + len ≡ length flag * 8
    → mark_flag put v flag offset len ≡ none
unfolding mark_flag
mark_flag_edge put v flag offset len h =
    let i = offset / 8 in
    let i0 = (offset + len) / 8 in
    elim (Bool-cases (i == i0)) [
      | inl one ↦ rw (one) (update-none flag i _ (ground arith))
      | inr many ↦ rw (
        many,
        update-some flag i (put (head_mask offset)) 0 (ground arith),
        update-none (set flag i (put (head_mask offset) (get_or flag i 0))) i0
            (put (tail_mask (offset + len)))
            (omega (arith, length-set flag i (put (head_mask offset) (get_or flag i 0)))),
      )
    ]
