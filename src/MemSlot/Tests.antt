-- ===== src/MemSlot/Tests.antt =====
-- c/src/mem_slot.c: runs of the model, and the theorems at concrete slots.
use artorias.Prelude.{
  ℕ, zero, suc, ◌+◌, ◌-◌, ◌/◌, ◌%◌, ◌≤◌, ◌<◌, ◌≡◌, refl, ◌⊎◌, some, List, [], ◌∷◌, arith, get_or,
}
use artorias.Prelude.Bits.{bit-zero}
use artorias.Prelude.{update}
use artorias.MemSlot.{
  Slot, IsSlot, Run, failed, got, fault, search_byte, search_flags, slot_alloc, slot_free, unit_at,
  mark_flag, mark_used_flag, mark_free_flag, fill_flag, head_mask, tail_mask, or_mask, clear_mask,
}
use artorias.MemSlot.Search.{Found, search-Found}
use artorias.MemSlot.Alloc.{
  IsAlloc, slot_alloc-IsAlloc, alloc-alloc_disjoint, slot_free-slot_alloc, slot_alloc_whole,
}
use artorias.BitScan.{bits_cl0_u8, bits_ct0_u8}

abbrev slot : ℕ → ℕ → Slot
slot a b = record { n = 2; flag = a ∷ b ∷ [] }

bytes_of : (a b : ℕ) → a < 256 → b < 256 → (i : ℕ) → get_or (a ∷ b ∷ []) i 0 < 256
bytes_of a b ha hb zero = ha
bytes_of a b ha hb (suc zero) = hb
bytes_of a b ha hb (suc (suc i)) = omega arith

slot-IsSlot : (a b : ℕ) → a < 256 → b < 256 → IsSlot (slot a b)
slot-IsSlot a b ha hb = record { size = refl; small = omega arith; bytes = bytes_of a b ha hb }

empty-IsSlot : IsSlot (slot 0 0)
empty-IsSlot = slot-IsSlot 0 0 (omega arith) (omega arith)

alloc_first : slot_alloc (slot 0 0) 3 ≡ got 0 (slot 0xe0 0)
unfolding slot_alloc search_flags search_byte bits_cl0_u8 bits_ct0_u8 mark_used_flag mark_flag
    fill_flag head_mask tail_mask or_mask update
alloc_first = refl

alloc_second : slot_alloc (slot 0xe0 0) 9 ≡ got 3 (slot 0xff 0xf0)
unfolding slot_alloc search_flags search_byte bits_cl0_u8 bits_ct0_u8 mark_used_flag mark_flag
    fill_flag head_mask tail_mask or_mask update
alloc_second = refl

free_second : slot_free (slot 0xff 0xf0) 3 9 ≡ some (slot 0xe0 0)
unfolding slot_free mark_free_flag mark_flag fill_flag head_mask tail_mask clear_mask update
free_second = refl

-- A run that starts inside a byte and ends before the byte's end is not found: of the units 2 to 4
-- of the first byte, free, none is taken.
alloc_inner : slot_alloc (record { n = 1; flag = 0xc7 ∷ [] }) 3 ≡ failed
unfolding slot_alloc search_flags search_byte bits_cl0_u8 bits_ct0_u8 mark_used_flag mark_flag
    fill_flag head_mask tail_mask or_mask update
alloc_inner = refl

slot_alloc-IsAlloc_example : IsAlloc (slot 0xe0 0) 9 (slot_alloc (slot 0xe0 0) 9)
slot_alloc-IsAlloc_example =
    slot_alloc-IsAlloc (slot 0xe0 0) 9 (slot-IsSlot 0xe0 0 (omega arith) (omega arith))

alloc-alloc_disjoint_example : (0 + 3 ≤ 3) ⊎ (3 + 9 ≤ 0)
alloc-alloc_disjoint_example =
    alloc-alloc_disjoint (slot 0 0) (slot 0xe0 0) (slot 0xff 0xf0) 3 9 0 3 empty-IsSlot alloc_first
      alloc_second

slot_free-slot_alloc_example :
    (u : Slot) × (slot_free (slot 0xff 0xf0) 3 9 ≡ some u)
    × IsSlot u
    × ((p : ℕ) → unit_at u.flag p ≡ unit_at (0xe0 ∷ 0 ∷ []) p)
slot_free-slot_alloc_example =
    slot_free-slot_alloc (slot 0xe0 0) (slot 0xff 0xf0) 9 3
      (slot-IsSlot 0xe0 0 (omega arith) (omega arith)) alloc_second

abbrev zeros : List ℕ
zeros = 0 ∷ 0 ∷ []

no_bytes : (i : ℕ) → get_or zeros i 0 ≡ 0
no_bytes zero = refl
no_bytes (suc zero) = refl
no_bytes (suc (suc i)) = refl

no_units : (p : ℕ) → 0 ≤ p → p < 16 → unit_at zeros p ≡ 0
no_units p lo hi = rw (no_bytes (p / 8)) (bit-zero (7 - p % 8))

slot_alloc_whole_example : slot_alloc (slot 0 0) 16 ≡ fault
slot_alloc_whole_example = slot_alloc_whole (slot 0 0) empty-IsSlot (omega arith) no_units

search-Found_example :
    (r : Run) × (search_flags 9 (0xe0 ∷ 0 ∷ []) 2 0 (record { offset = 0; empty = 0 }) ≡ some r)
    × Found (0xe0 ∷ 0 ∷ []) 9 2 r
search-Found_example =
    search-Found (0xe0 ∷ 0 ∷ []) 9 2 (omega arith) (omega arith)
      (bytes_of 0xe0 0 (omega arith) (omega arith))
