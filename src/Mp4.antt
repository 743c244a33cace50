-- ===== src/Mp4.antt =====
-- src/mp4: the parser's components.
pub mod Boxes
pub mod Tables
pub mod Fragments
pub mod Edit
