-- ===== src/Geo.antt =====
-- internal/geo: where a photograph was taken, out of the file itself.
pub mod Bytes
pub mod Float64
pub mod Ensures
pub mod Tiff
pub mod TiffSafety
pub mod Segments
pub mod SegmentWalk
pub mod Boxes
pub mod BoxWalk
pub mod Heic
pub mod HeicSafety
pub mod Iso6709
pub mod Iso6709Laws
pub mod Movie
pub mod MovieSafety
pub mod Reading
pub mod ReadingSafety
