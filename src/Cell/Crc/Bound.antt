-- ===== src/Cell/Crc/Bound.antt =====
-- `crc32` of tools/x402-bridge/serial-mesh.ts stays within 32 bits.
use Prim.Native.Nat.{bit_xor, digits, differ, bit_xor-bitwise}
use native.Mathlib.Nat.{pow-suc}
use semantos_edge.Base.{
  ℕ, zero, suc, ◌/◌, ◌%◌, ◌^◌, ◌≤◌, ◌<◌, Bool-cases, inl, inr, List, [], ◌∷◌, arith, ◌==◌,
}
use semantos_edge.Cell.Crc.{crc_rounds, crc_entry, crc_step, crc_bytes, crc32}

differ-le : (a b : ℕ) → a ≤ 1 → b ≤ 1 → differ a b ≤ 1
differ-le zero b h g = g
differ-le (suc a) zero h g = h
differ-le (suc a) (suc b) h g = differ-le a b (omega arith) (omega arith)

digits-lt : (n k a b : ℕ) → a < 2 ^ k → b < 2 ^ k → digits (λ b. b) differ n a b < 2 ^ k
digits-lt zero k a b h g = g
digits-lt (suc n) k zero b h g = g
digits-lt (suc n) zero (suc a) b h g = absurd (omega arith)
digits-lt (suc n) (suc k) (suc a) b h g = omega (
  arith,
  pow-suc 2 k,
  differ-le (suc a % 2) (b % 2) (omega arith) (omega arith),
  digits-lt n k (suc a / 2) (b / 2) (omega (arith, pow-suc 2 k)) (omega (arith, pow-suc 2 k)),
)

bit_xor-lt : (k a b : ℕ) → a < 2 ^ k → b < 2 ^ k → bit_xor a b < 2 ^ k
bit_xor-lt k a b h g = omega (arith, bit_xor-bitwise a b, digits-lt a k a b h g)

crc_rounds-lt : (k c : ℕ) → c < 2 ^ 32 → crc_rounds k c < 2 ^ 32
unfolding crc_rounds
crc_rounds-lt zero c h = h
crc_rounds-lt (suc k) c h = elim (Bool-cases (c % 2 == 1)) [
  | inl e ↦ rw e (crc_rounds-lt k _ (bit_xor-lt 32 0xedb8_8320 (c / 2) (omega arith) (omega arith)))
  | inr e ↦ rw e (crc_rounds-lt k (c / 2) (omega arith))
]

crc_step-lt : (c b : ℕ) → c < 2 ^ 32 → crc_step c b < 2 ^ 32
unfolding crc_step crc_entry
crc_step-lt c b h =
    bit_xor-lt 32 _ (c / 2 ^ 8) (crc_rounds-lt 8 (bit_xor c b % 256) (omega arith)) (omega arith)

crc_bytes-lt : (c : ℕ) (bs : List ℕ) → c < 2 ^ 32 → crc_bytes c bs < 2 ^ 32
unfolding crc_bytes
crc_bytes-lt c [] h = h
crc_bytes-lt c (b ∷ bs) h = crc_bytes-lt (crc_step c b) bs (crc_step-lt c b h)

-- A checksum fits 32 bits, whatever the bytes.
pub crc32-lt : (bs : List ℕ) → crc32 bs < 2 ^ 32
unfolding crc32
crc32-lt bs = bit_xor-lt 32 _ 0xffff_ffff (crc_bytes-lt 0xffff_ffff bs (omega arith)) (omega arith)
