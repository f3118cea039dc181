-- ===== src/Analyzer.antt =====
-- The change analyzer: which lines a unified diff changes, and which symbols those lines touch
-- (backend/internal/analyzer).
pub mod Diff
pub mod Mapper
pub mod Graph
pub mod Connection
pub mod Impact
mod Tests
