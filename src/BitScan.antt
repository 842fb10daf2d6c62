-- ===== src/BitScan.antt =====
-- c/src/mem_slot.c: the functions that count leading and trailing zero bits of a word.
-- Each `if` of the source that narrows the word is one step; the last one only adjusts the count.
pub mod Byte
pub mod Wide
pub mod Trailing
mod Tests
use artorias.Prelude.{ℕ, ◌+◌, ◌-◌, ◌/◌, ◌^◌, ◌==◌, if◌then◌else◌, bit_and}

-- The local variables `n` and `x`.
pub record Scan : Type 0 where
  pub n : ℕ
  pub x : ℕ

abbrev pub scan : ℕ → ℕ → Scan
scan n x = record { n = n; x = x }

-- `if (x & mask) { n -= h; x >>= h; }`
pub cl0_step : ℕ → ℕ → Scan → Scan
cl0_step mask h s = if bit_and s.x mask == 0 then s else scan (s.n - h) (s.x / 2 ^ h)

-- `if (!(x & mask)) { n += h; x >>= h; }`
pub ct0_step : ℕ → ℕ → Scan → Scan
ct0_step mask h s = if bit_and s.x mask == 0 then scan (s.n + h) (s.x / 2 ^ h) else s

-- `if (x & 0x2) { n -= 1; } return n;`
pub cl0_last : Scan → ℕ
cl0_last s = if bit_and s.x 2 == 0 then s.n else s.n - 1

-- `if (!(x & 0x1)) { n += 1; } return n;`
pub ct0_last : Scan → ℕ
ct0_last s = if bit_and s.x 1 == 0 then s.n + 1 else s.n

unfoldable pub bits_cl0_u8 : ℕ → ℕ
unfolding cl0_step cl0_last
bits_cl0_u8 x = cl0_last (cl0_step 0xc 2 (cl0_step 0xf0 4 (scan 7 x)))

unfoldable pub bits_ct0_u8 : ℕ → ℕ
unfolding ct0_step ct0_last
bits_ct0_u8 x = ct0_last (ct0_step 0x3 2 (ct0_step 0xf 4 (scan 0 x)))

pub bits_cl0_u32 : ℕ → ℕ
bits_cl0_u32 x =
    cl0_last
      (cl0_step 0xc 2 (cl0_step 0xf0 4 (cl0_step 0xff00 8 (cl0_step 0xffff0000 16 (scan 31 x)))))

pub bits_ct0_u32 : ℕ → ℕ
bits_ct0_u32 x =
    ct0_last (ct0_step 0x3 2 (ct0_step 0xf 4 (ct0_step 0xff 8 (ct0_step 0xffff 16 (scan 0 x)))))

pub bits_cl0_u64 : ℕ → ℕ
bits_cl0_u64 x = cl0_last (
    cl0_step 0xc 2 (
      cl0_step 0xf0 4
        (cl0_step 0xff00 8 (cl0_step 0xffff0000 16 (cl0_step 0xffffffff00000000 32 (scan 63 x))))))

pub bits_ct0_u64 : ℕ → ℕ
bits_ct0_u64 x = ct0_last (
    ct0_step 0x3 2
      (ct0_step 0xf 4 (ct0_step 0xff 8 (ct0_step 0xffff 16 (ct0_step 0xffffffff 32 (scan 0 x))))))
