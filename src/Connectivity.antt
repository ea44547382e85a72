-- ===== src/Connectivity.antt =====
-- Connectivity of a run: the package connectivity/.
pub mod Sections
pub mod Replaced
pub mod Artifacts
pub mod Readiness
pub mod Url
pub mod Probe
pub mod Present
pub mod Loopback
pub mod Files
mod Tests
