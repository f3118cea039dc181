-- ===== src/Execution.antt =====
-- backend/internal/execution: what a finished sandbox run counts as.
pub mod Classifier
mod Tests
