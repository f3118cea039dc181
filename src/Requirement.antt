-- ===== src/Requirement.antt =====
-- backend/internal/requirement: how the requirements of two source snapshots are matched.
pub mod Comparison
pub mod Grouping
pub mod Conservation
pub mod Later
mod Tests
