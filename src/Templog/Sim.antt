-- ===== src/Templog/Sim.antt =====
-- tools/templog-bridge/sim.ts: the simulated field node.
pub mod Node
pub mod Ring
pub mod Deliver
pub mod World
pub mod Radio
pub mod Acked
mod Examples
mod RoundExamples
