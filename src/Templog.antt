-- ===== src/Templog.antt =====
-- tools/templog-bridge: the temperature logger's host bridge.
pub mod Text
pub mod Mac
pub mod Batch
pub mod Codec
pub mod Serial
pub mod Json
pub mod Climb
pub mod Store
pub mod Bridge
pub mod Replay
pub mod Sim
