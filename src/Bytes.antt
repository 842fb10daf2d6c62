-- ===== src/Bytes.antt =====
-- c/src/bytes.c: buffers of bytes in a list of blocks. The list of a buffer is a list here; `size_t`
-- wraps around at 2^64, and `cnt` is the bit pattern of an `int`. Whether `memp_alloc` has a block is
-- a parameter.
pub mod Content
pub mod Read
pub mod Ref
mod Tests
use artorias.Prelude.{
  ℕ, zero, suc, ◌+◌, ◌-◌, ◌*◌, ◌%◌, ◌^◌, Bool, Option, none, some, List, [], ◌∷◌, ◌++◌, ◌==◌, ltb,
  if◌then◌else◌, length,
}
use artorias.Kernel.{Got, got, read_error, Kernel}

-- `as_bytes_block_t`: `d` are the bytes that `read` has put there.
pub record Block : Type 0 where
  pub size : ℕ
  pub used : ℕ
  pub d : List ℕ

-- `as_bytes_t`
pub record Bytes : Type 0 where
  pub size : ℕ
  pub used : ℕ
  pub cnt : ℕ
  pub dl : List Block

abbrev pub bytes_init : Bytes
bytes_init = record { size = 0; used = 0; cnt = 0; dl = [] }

-- How a read ends: with a count; with a write through the NULL that `memp_alloc` has returned; or not
-- with this fuel.
pub data Filled (K : Type 0) : Type 0 where
  filled : ℕ → Bytes → K → Filled K
  null_write : Filled K
  out_of_fuel : Filled K

-- A new block of `rsize` bytes, at the tail.
abbrev pub add_block : Bytes → ℕ → ℕ → List ℕ → Bytes
add_block bs rsize nbyte xs = record {
  size = (bs.size + rsize) % 2 ^ 64;
  used = (bs.used + nbyte) % 2 ^ 64;
  cnt = (bs.cnt + 1) % 2 ^ 32;
  dl = bs.dl ++ (record { size = rsize; used = nbyte; d = xs } ∷ []);
}

-- `MAX_BLOCK_SIZE` is 1024.
abbrev pub next_size : ℕ → ℕ
next_size rsize = if ltb rsize 1024 then rsize * 2 else rsize

-- `nbyte` is not signed: -1 is 2^64 - 1, and the test for an error fails.
abbrev nbyte_of : Got → ℕ
nbyte_of (got xs) = length xs
nbyte_of (read_error e) = 2 ^ 64 - 1

abbrev pub bytes_of : Got → List ℕ
bytes_of (got xs) = xs
bytes_of (read_error e) = []

-- The rest of a round of the loop, whose condition is `nbyte > 0`; `again` is the next round.
abbrev pub after_read :
    {K : Type 0} → (ℕ → ℕ → Bytes → K → Filled K) → ℕ → ℕ → Bytes → Got × K → Filled K
after_read again rsize n bs (r, k) =
    let bs' = add_block bs rsize (nbyte_of r) (bytes_of r) in
    let n' = (n + nbyte_of r) % 2 ^ 64 in
    if nbyte_of r == 0 then filled n' bs' k else again (next_size rsize) n' bs' k

-- `memory` says whether `memp_alloc` has a block for a buffer and a size.
module _ {K : Type 0} (kernel : Kernel K) (memory : K → Bytes → ℕ → Bool) (fd : ℕ) where
  pub read_loop : ℕ → ℕ → ℕ → Bytes → K → Filled K
  read_loop zero rsize n bs k = out_of_fuel
  read_loop (suc fuel) rsize n bs k =
      if memory k bs rsize
      then after_read (read_loop fuel) rsize n bs (kernel.read k fd rsize)
      else null_write

  pub bytes_read_from_fd : ℕ → Bytes → K → Filled K
  unfolding read_loop
  bytes_read_from_fd fuel bs k = read_loop fuel 64 0 bs k

-- The loop of `bytes_offset` at a block: how many blocks are passed, and the place in the next one.
pub offset_in : List Block → ℕ → ℕ → Option (ℕ × ℕ)
offset_in [] offset n = none
offset_in (b ∷ bs) offset n =
    let rest = offset_in bs (offset - b.used) (n + 1) in
    if ltb offset b.used then some (n, offset) else rest

pub bytes_offset : Bytes → ℕ → Option (ℕ × ℕ)
unfolding offset_in
bytes_offset bs offset = if ltb offset bs.used then offset_in bs.dl offset 0 else none

abbrev bytes_length : Bytes → ℕ
bytes_length bs = bs.used

abbrev bytes_destroy : Bytes → Bytes
bytes_destroy bs = record { size = 0; used = 0; cnt = 0; dl = [] }
