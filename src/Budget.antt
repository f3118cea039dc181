-- ===== src/Budget.antt =====
-- backend/internal/aibudget: reservations of a document set's AI token and cost budget.
pub mod Model
pub mod Manager
pub mod Sums
pub mod Safety
pub mod Settling
mod Tests
