-- ===== src/Syncer.antt =====
-- internal/syncer: one backup pass.
pub mod Retry
pub mod Queue
pub mod Download
pub mod Source
pub mod Library
pub mod Listing
pub mod Run
pub mod Duplicates
pub mod Verify
pub mod Paths
