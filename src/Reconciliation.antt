-- ===== src/Reconciliation.antt =====
-- File-based reconciliation: reconciliation/checks.py.
pub mod Standard
pub mod Validate
pub mod Checks
pub mod Orders
pub mod Freshness
pub mod Rollup
pub mod Operation
pub mod Verdict
pub mod Effects
pub mod Agreement
pub mod SameOrder
pub mod OrderIds
pub mod OrdersAgree
mod Tests
