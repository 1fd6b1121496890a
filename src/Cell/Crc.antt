-- ===== src/Cell/Crc.antt =====
-- `crc32` of tools/x402-bridge/serial-mesh.ts. A 32-bit word is a natural below 2 ^ 32.
pub mod Bound
use Prim.Native.Nat.{bit_xor}
use semantos_edge.Base.{ℕ, zero, suc, ◌/◌, ◌%◌, ◌^◌, List, [], ◌∷◌, ◌==◌, if◌then◌else◌}

-- `k` rounds of the inner loop of CRC_TABLE.
unfoldable pub crc_rounds : ℕ → ℕ → ℕ
crc_rounds zero c = c
crc_rounds (suc k) c = crc_rounds k (if c % 2 == 1 then bit_xor 0xedb8_8320 (c / 2) else c / 2)

-- CRC_TABLE[n]
unfoldable pub crc_entry : ℕ → ℕ
unfolding crc_rounds
crc_entry n = crc_rounds 8 n

unfoldable pub crc_step : ℕ → ℕ → ℕ
crc_step c b = bit_xor (crc_entry (bit_xor c b % 256)) (c / 2 ^ 8)

unfoldable pub crc_bytes : ℕ → List ℕ → ℕ
crc_bytes c [] = c
crc_bytes c (b ∷ bs) = crc_bytes (crc_step c b) bs

unfoldable pub crc32 : List ℕ → ℕ
crc32 bs = bit_xor (crc_bytes 0xffff_ffff bs) 0xffff_ffff
