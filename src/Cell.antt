-- ===== src/Cell.antt =====
-- The bytes of tools/x402-bridge/cell-codec.ts and tools/x402-bridge/serial-mesh.ts.
pub mod Words
pub mod Crc
pub mod Wire
pub mod Sighash
pub mod Actuator
pub mod Domains
pub mod Capability
pub mod Interlock
pub mod Activate
mod Examples
