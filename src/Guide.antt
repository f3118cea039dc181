-- ===== src/Guide.antt =====
-- backend/internal/workflow/service.go: what a document set's page may do next.
pub mod Model
pub mod Selection
pub mod Read
pub mod Advice
pub mod Deciding
pub mod Steps
mod Tests
