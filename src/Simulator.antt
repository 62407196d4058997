-- ===== src/Simulator.antt =====
-- The point-of-sale simulator, simulator/simulator.
pub mod Float
pub mod Config
pub mod Rng
pub mod Transport
pub mod Domain
pub mod Runtime
pub mod Fixtures
