-- ===== src/Runs.antt =====
-- Run specifications and run lifecycles: the package runs/.
pub mod Spec
pub mod Validate
pub mod Valid
pub mod Sound
pub mod RoundTrip
pub mod Artifacts
pub mod Lifecycle
pub mod Paper
pub mod Backtest
pub mod Opened
pub mod Steps
pub mod PaperRuns
pub mod Ready
pub mod PaperLifecycle
pub mod PaperGuards
pub mod PaperEnds
pub mod BacktestRuns
pub mod BacktestLifecycle
pub mod BacktestEnds
pub mod Tests
pub mod BacktestTests
