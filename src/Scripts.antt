-- ===== src/Scripts.antt =====
-- The checks of the whole system, scripts.
pub mod Process
pub mod Sql
pub mod Services
pub mod Watch
pub mod Cleanup
pub mod Smoke
mod Machine
mod Tests
