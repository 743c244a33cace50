-- ===== src/Tests.antt =====
-- Concrete runs of the modelled code, and the theorems at them.
pub mod Mp4
pub mod Http
pub mod Cenc
pub mod Clip
pub mod Selection
pub mod Building
pub mod Limits
pub mod Sequence
pub mod Planner
pub mod Cache
pub mod Fragment
pub mod Edit
