-- ===== src/Guide/Model.antt =====
-- backend/internal/workflow/model.go and service.go: the read model of a document set's workflow.
use Prim.Native.String.{String}
use ai_test_assistant.Prelude.{ℕ, Bool, true, false, List}
use ai_test_assistant.Workflow.Model.{Operation, Job}

-- `document_index_status.status`; `not_indexed` where there is no row.
pub data IndexStatus : Type 0 where
  not_indexed indexing index_ready index_failed : IndexStatus

-- `readFacts`; `active` is `SetStatus == "ACTIVE"`.
pub record Facts : Type 0 where
  pub active : Bool
  pub source_revision : ℕ
  pub document_count : ℕ
  pub parsed_count : ℕ
  pub index_status : IndexStatus
  pub indexed_revision : ℕ
  pub extraction_ready : Bool
  pub requirement_count : ℕ
  pub approved_requirements : ℕ
  pub test_case_count : ℕ
  pub approved_test_cases : ℕ
  pub release_count : ℕ
  pub budget_remaining_tokens : ℕ
  pub budget_remaining_cost : ℕ
  pub cost_budget_configured : Bool

-- The part of `GenerationScope` that the read model depends on.
pub record GenerationScope : Type 0 where
  pub affected_requirement_ids : List ℕ
  pub removed_family_ids : List ℕ

pub data StepKey : Type 0 where
  source index requirements testcases release : StepKey

pub data StepState : Type 0 where
  ready complete blocked failed in_progress : StepState

pub data NextAction : Type 0 where
  reactivate_set upload_document wait_for_active_job wait_for_parse review_source : NextAction
  review_requirements adjust_ai_budget publish_suite_release review_workflow : NextAction
  run : Operation → NextAction

pub data ReasonCode : Type 0 where
  document_set_inactive no_documents source_parse_pending index_not_current : ReasonCode
  source_not_approved no_approved_requirements ai_budget_exhausted : ReasonCode

pub record BlockingReason : Type 0 where
  pub code : ReasonCode
  pub message : String
  pub step : StepKey
  pub next_action : NextAction

pub record Capabilities : Type 0 where
  pub can_upload : Bool
  pub can_manage : Bool
  pub can_index : Bool
  pub can_extract : Bool
  pub can_generate : Bool
  pub can_review : Bool
  pub can_publish : Bool
  pub can_retry_job : Bool
  pub can_cancel_job : Bool
  pub can_adjust_budget : Bool

pub record StepView : Type 0 where
  pub key : StepKey
  pub state : StepState
  pub completed_units : ℕ
  pub total_units : ℕ
  pub blocking_reasons : List BlockingReason

pub record ReadModel : Type 0 where
  pub document_set_id : ℕ
  pub source_revision : ℕ
  pub steps : List StepView
  pub capabilities : Capabilities
  pub blocking_reasons : List BlockingReason
  pub active_jobs : List Job
  pub recent_jobs : List Job
  pub next_action : NextAction

unfoldable pub same_step : StepKey → StepKey → Bool
same_step source source = true
same_step index index = true
same_step requirements requirements = true
same_step testcases testcases = true
same_step release release = true
same_step _ _ = false
