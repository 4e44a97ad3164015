-- ===== src/Gphotos.antt =====
-- internal/gphotos: the decoders of Google's answers, over JSON that encoding/json has decoded.
pub mod Json
pub mod Tree
pub mod Items
pub mod Albums
pub mod Frames
pub mod Answers
pub mod Strictness
pub mod Pages
pub mod Redaction
pub mod DriftPrivacy
pub mod Privacy
