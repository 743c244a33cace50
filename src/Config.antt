-- ===== src/Config.antt =====
-- src/config
pub mod Limits
