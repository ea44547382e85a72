-- ===== src/Engine.antt =====
-- The smoke backtest: the package engines/nautilus.
pub mod Strategy
pub mod Counting
pub mod Smoke
pub mod Reads
pub mod Facts
mod Tests
