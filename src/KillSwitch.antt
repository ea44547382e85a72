-- ===== src/KillSwitch.antt =====
-- The file-based kill switch: src/tradingchassis_ops_lab/safety/kill_switch.py.
pub mod Payloads
pub mod Parse
pub mod Operations
pub mod Frame
pub mod Status
pub mod Isolation
pub mod Outcome
pub mod Snapshot
mod Tests
