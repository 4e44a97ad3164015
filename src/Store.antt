-- ===== src/Store.antt =====
-- internal/store: the SQLite tables as lists of rows, and the statements run against them.
pub mod Rows
pub mod Items
pub mod Albums
pub mod Membership
pub mod Review
pub mod Twins
pub mod Upsert
pub mod WriteOff
pub mod Work
pub mod Copies
pub mod Queue
pub mod Instructions
pub mod DownloadPath
pub mod WellFormed
pub mod ReviewPage
pub mod Invariant
pub mod Spent
pub mod Retirement
pub mod Runs
