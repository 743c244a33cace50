-- ===== src/Media.antt =====
-- src/media: samples and tracks.
pub mod Sample
pub mod Ascending
pub mod Tables
pub mod SampleIndex
pub mod Iter
pub mod Track
pub mod Building
pub mod Selection
