-- ===== src/X402.antt =====
-- tools/x402-bridge: the bridge that lights a device for a payment.
pub mod Payment
pub mod Bridge
pub mod Meter
pub mod Metered
pub mod Forward
pub mod Channel
pub mod Hops
mod Examples
