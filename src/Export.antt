-- ===== src/Export.antt =====
-- app/export.go: the export of the state for a genesis file, and its preparation for height zero.
pub mod Tables
pub mod Ranking
pub mod Chain
pub mod ZeroHeight
pub mod AppState
pub mod Tests
pub mod PoolTests
pub mod RecordTests
