-- ===== src/Templog/Store.antt =====
-- tools/templog-bridge/store.ts: what the bridge holds, and what it may acknowledge.
pub mod Records
pub mod Plan
pub mod Rebuild
pub mod Ingest
pub mod Taken
pub mod Advance
pub mod Lost
pub mod Again
pub mod Commit
pub mod Repeat
pub mod Reading
pub mod Finish
pub mod PlanLines
pub mod Accs
pub mod Recovery
pub mod Glued
mod Examples
