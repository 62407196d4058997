-- ===== src/Backend.antt =====
-- The ingestion service, backend/app.
pub mod Models
pub mod Database
pub mod Session
pub mod Services
pub mod Realtime
pub mod Classify
pub mod Ingestion
pub mod Api
pub mod Concurrent
pub mod Seed
pub mod Validation
pub mod Engine
