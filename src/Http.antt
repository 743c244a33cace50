-- ===== src/Http.antt =====
-- The HTTP server's parts that decide what a response body holds: src/http/range.rs and
-- src/http/stream.rs.
pub mod Range
pub mod Coalesce
pub mod Windows
pub mod Stream
