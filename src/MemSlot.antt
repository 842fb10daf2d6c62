-- ===== src/MemSlot.antt =====
-- c/src/mem_slot.c: the bitmap allocator. A slot of `n` bytes holds `8 * n` units; the unit `p` is
-- the bit `7 - p % 8` of the byte `p / 8`, and is set while the unit is in use. The allocated
-- object has exactly `n` flag bytes: an access to any other byte is undefined in C, and is
-- the outcome `fault` here (`none` in the two loops).
pub mod Mark
pub mod Masks
pub mod Search
pub mod Alloc
mod Tests
use artorias.Prelude.{
  ℕ, zero, suc, ◌+◌, ◌-◌, ◌*◌, ◌/◌, ◌%◌, ◌^◌, ◌<◌, ◌≡◌, Bool, ◌||◌, Option, none, some, List, ◌==◌,
  ltb, leb, if◌then◌else◌, length, get_elem?, get_or, replicate, update, ◌>>=◌, bit_and, bit_or,
}
use artorias.Prelude.Bits.{bit}
use artorias.BitScan.{bits_cl0_u8, bits_ct0_u8}

pub record Slot : Type 0 where
  pub n : ℕ
  pub flag : List ℕ

-- `SLOT_SIZE`
abbrev pub slot_size : Slot → ℕ
slot_size s = s.n * 8

-- `slot_new`; `none` is the NULL of a failed `malloc`, and `bzero` clears the `n` flag bytes.
pub slot_new : Bool → ℕ → Option Slot
slot_new got n = if got then some (record { n = n; flag = replicate n 0 }) else none

-- `0xff >> (offset % 8)` and `0xff << (8 - offset0 % 8)`, computed in `int`.
pub head_mask : ℕ → ℕ
head_mask offset = 0xff / 2 ^ (offset % 8)

pub tail_mask : ℕ → ℕ
tail_mask offset0 = 0xff * 2 ^ (8 - offset0 % 8)

-- `b |= m` and `b &= ~m` on a byte; `~` acts on an `int` of 32 bits.
pub or_mask : ℕ → ℕ → ℕ
or_mask m b = bit_or b m % 2 ^ 8

pub clear_mask : ℕ → ℕ → ℕ
clear_mask m b = bit_and b (2 ^ 32 - 1 - m) % 2 ^ 8

-- `for (j = j; j < j + count; ++j) flag[j] = v;`
pub fill_flag : ℕ → ℕ → ℕ → List ℕ → Option (List ℕ)
fill_flag v zero j flag = some flag
fill_flag v (suc count) j flag = update flag j (λ _. v) >>= fill_flag v count (j + 1)

-- The common shape of `mark_used_flag` and `mark_free_flag`: `put m` is `|= m` or `&= ~m`, and `v`
-- is what the bytes in between are set to.
pub mark_flag : (ℕ → ℕ → ℕ) → ℕ → List ℕ → ℕ → ℕ → Option (List ℕ)
mark_flag put v flag offset len =
    let offset0 = offset + len in
    let i = offset / 8 in
    let i0 = offset0 / 8 in
    if i == i0 then update flag i (put (bit_and (head_mask offset) (tail_mask offset0))) else (do
      flag ← update flag i (put (head_mask offset))
      flag ← update flag i0 (put (tail_mask offset0))
      fill_flag v (i0 - (i + 1)) (i + 1) flag)

pub mark_used_flag : List ℕ → ℕ → ℕ → Option (List ℕ)
unfolding mark_flag
mark_used_flag = mark_flag or_mask 0xff

pub mark_free_flag : List ℕ → ℕ → ℕ → Option (List ℕ)
unfolding mark_flag
mark_free_flag = mark_flag clear_mask 0

-- The variables `offset` and `empty` of the search in `slot_alloc`.
pub record Run : Type 0 where
  pub offset : ℕ
  pub empty : ℕ

-- One round of the search, at the byte `b` of index `i`.
pub search_byte : ℕ → ℕ → ℕ → Run → Run
search_byte size i b r =
    if b == 0
    then record r { empty = r.empty + 8 }
    else if leb size (r.empty + bits_cl0_u8 b)
    then record r { empty = r.empty + bits_cl0_u8 b }
    else record { offset = i * 8 + (8 - bits_ct0_u8 b); empty = bits_ct0_u8 b }

-- `for (i = i; i < s->n && empty < size; ++i)`, with `left` for `s->n - i`.
pub search_flags : ℕ → List ℕ → ℕ → ℕ → Run → Option Run
search_flags size flag zero i r = some r
search_flags size flag (suc left) i r =
    if ltb r.empty size
    then (get_elem? flag i >>= λ b. search_flags size flag left (i + 1) (search_byte size i b r))
    else some r

-- What `slot_alloc` does: it returns -1, or an offset with the new flags, or it runs out of bounds.
pub data Outcome : Type 0 where
  failed : Outcome
  got : ℕ → Slot → Outcome
  fault : Outcome

abbrev pub alloc_found : Slot → ℕ → Option Run → Outcome
alloc_found s size none = fault
alloc_found s size (some r) =
    if leb size r.empty
    then elim (mark_used_flag s.flag r.offset size) [
      | none ↦ fault
      | some flag ↦ got r.offset (record s { flag = flag })
    ]
    else failed

pub slot_alloc : Slot → ℕ → Outcome
slot_alloc s size =
    if ltb (slot_size s) size || (size == 0)
    then failed
    else alloc_found s size (search_flags size s.flag s.n 0 (record { offset = 0; empty = 0 }))

-- `slot_free` for an offset that is not negative; `none` is an access out of bounds.
pub slot_free : Slot → ℕ → ℕ → Option Slot
slot_free s offset size =
    if ltb (slot_size s) offset || ltb (slot_size s) ((offset + size) % 2 ^ 32)
    then some s
    else (mark_free_flag s.flag offset size >>= λ flag. some (record s { flag = flag }))

-- Whether the unit `p` is in use, as 0 or 1.
abbrev pub unit_at : List ℕ → ℕ → ℕ
unit_at flag p = bit (get_or flag (p / 8) 0) (7 - p % 8)

-- The flag bytes are there, and are bytes.
pub record IsSlot (s : Slot) : Type 0 where
  pub size : length s.flag ≡ s.n
  pub small : s.n < 256
  pub bytes : (i : ℕ) → get_or s.flag i 0 < 256
