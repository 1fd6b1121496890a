-- ===== src/Templog/Bridge.antt =====
-- `TempLogBridge.handleLine` of tools/templog-bridge/bridge.ts: what one serial line does.
pub mod Line
pub mod Acked
pub mod Stream
mod Examples
