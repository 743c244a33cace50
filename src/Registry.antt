-- ===== src/Registry.antt =====
-- src/registry
pub mod Cache
