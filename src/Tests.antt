-- ===== src/Tests.antt =====
-- The theorems at concrete tables and answers: internal/store and internal/syncer.
mod Data
mod StoreRuns
mod ListingRuns
mod DownloadRuns
mod PassRuns
mod WebRuns
mod GeoRuns
mod GphotosRuns
mod VerifyRuns
mod DaemonRuns
mod AlbumSortRuns
mod PathRuns
