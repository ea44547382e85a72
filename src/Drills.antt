-- ===== src/Drills.antt =====
-- Failure drills: the restart rehearsal of drills/executor.py.
pub mod Rehearsal
pub mod Fixtures
pub mod Report
mod Tests
