-- ===== src/Process.antt =====
-- The managed processes: src/process/manager.ts.
pub mod Buffer
pub mod Retained
pub mod Reading
pub mod Table
pub mod Retention
pub mod Sound
pub mod Steps
pub mod Lookup
mod Tests
