-- ===== src/BitScan/Tests.antt =====
-- c/src/mem_slot.c: the scans at concrete words.
use artorias.Prelude.{◌-◌, ◌<◌, arith}
use artorias.BitScan.{bits_cl0_u32, bits_cl0_u64, bits_ct0_u32, bits_ct0_u64}
use artorias.BitScan.Wide.{IsTop, IsLow}
use artorias.BitScan.Trailing.{bits-IsTop-IsLow}

bits-IsTop-IsLow_example :
    ((IsTop 0x00f0 (31 - bits_cl0_u32 0x00f0) × (bits_cl0_u32 0x00f0 < 32))
      × (IsTop 0x0f00f0 (63 - bits_cl0_u64 0x0f00f0) × (bits_cl0_u64 0x0f00f0 < 64)))
    × (IsLow 0x00f0 (bits_ct0_u32 0x00f0) × IsLow 0x0f00f0 (bits_ct0_u64 0x0f00f0))
bits-IsTop-IsLow_example =
    bits-IsTop-IsLow 0x00f0 0x0f00f0 (omega arith) (omega arith) (omega arith) (omega arith)
