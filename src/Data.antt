-- ===== src/Data.antt =====
-- Datasets: the package data/.
pub mod Prepare
pub mod Fingerprint
pub mod Prepared
mod Tests
