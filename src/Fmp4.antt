-- ===== src/Fmp4.antt =====
-- src/fmp4: writing fragmented MP4.
pub mod Write
pub mod Fragment
