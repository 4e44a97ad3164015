-- ===== src/Web.antt =====
-- internal/web: what stands between a request and the pages.
pub mod Sessions
pub mod Guard
pub mod AlbumSort
