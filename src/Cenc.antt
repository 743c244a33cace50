-- ===== src/Cenc.antt =====
-- The parts of common encryption that read NAL units, and its key periods: src/cenc/bits.rs and src/cenc/schedule.rs.
pub mod Bits
pub mod Schedule
