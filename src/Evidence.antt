-- ===== src/Evidence.antt =====
-- Evidence on a backtest and a paper run: the package evidence/.
pub mod Load
pub mod Compared
pub mod Payloads
pub mod Compare
pub mod Frame
pub mod Status
pub mod Missing
pub mod Cells
pub mod Complete
pub mod Render
pub mod Write
pub mod Tests
