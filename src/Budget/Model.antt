-- ===== src/Budget/Model.antt =====
-- backend/internal/aibudget/budget.go: the rows of `document_ai_budget_reservations` and the set's
-- budget columns. Ids, token counts and micro-USD amounts are never negative in these tables.
use Prim.Native.String.{String}
use ai_test_assistant.Prelude.{ℕ, Bool, true, false, Option}

-- The column `document_ai_budget_reservations.status`.
pub data ReservationStatus : Type 0 where
  reserved completed released : ReservationStatus

-- A row of `document_ai_budget_reservations`.
pub record Row : Type 0 where
  pub id : ℕ
  pub set_id : ℕ
  pub phase : String
  pub subject_key : String
  pub status : ReservationStatus
  pub reserved_tokens : ℕ
  pub reserved_cost : ℕ
  pub input_tokens : ℕ
  pub output_tokens : ℕ
  pub actual_cost : ℕ
  pub expires_at : ℕ
  pub completed_at : Option ℕ
  pub workflow_job_id : Option ℕ
  pub workflow_unit_id : Option ℕ
  pub workflow_attempt : Option ℕ

-- `WHERE status='RESERVED'`.
unfoldable pub is_reserved : ReservationStatus → Bool
is_reserved reserved = true
is_reserved _ = false

-- `WHERE status='COMPLETED'`.
unfoldable pub is_completed : ReservationStatus → Bool
is_completed completed = true
is_completed _ = false
