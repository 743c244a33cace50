-- ===== src/Segment.antt =====
-- src/segment
pub mod Planner
