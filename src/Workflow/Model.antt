-- ===== src/Workflow/Model.antt =====
-- backend/internal/workflow/model.go and the tables of migrations 26 and 27: jobs, their units, the
-- delegated extraction jobs and the source intents. A time is a number; a nullable column an Option.
use Prim.Native.String.{String}
use ai_test_assistant.Prelude.{ℕ, Bool, true, false, Option, List}
use ai_test_assistant.Budget.Model.{Row}

pub data Operation : Type 0 where
  index_documents extract_requirements generate_testcases : Operation

pub data JobStatus : Type 0 where
  queued running succeeded partial_failed failed canceled : JobStatus

pub data UnitStatus : Type 0 where
  queued running succeeded failed canceled : UnitStatus

-- `delegate_kind`: the empty text, or 'REQUIREMENT_EXTRACTION'.
pub data DelegateKind : Type 0 where
  native requirement_extraction : DelegateKind

-- The texts that `unit_key` holds: 'operation', 'requirement:<id>' and 'retire'.
pub data UnitKey : Type 0 where
  operation_key : UnitKey
  requirement_key : ℕ → UnitKey
  retire_key : UnitKey

pub data Error : Type 0 where
  not_found invalid_input idempotency_conflict operation_active revision_conflict : Error
  not_retryable not_cancelable lease_lost canceled_error input_stale forbidden : Error
  -- Any other error of the database driver: a violated constraint, a missing row.
  database : Error

pub record Job : Type 0 where
  pub id : ℕ
  pub set_id : ℕ
  pub operation : Operation
  pub status : JobStatus
  pub revision : ℕ
  pub input_snapshot : String
  pub input_hash : String
  pub requested_by : String
  pub idempotency_key : String
  pub total_units : ℕ
  pub completed_units : ℕ
  pub failed_units : ℕ
  pub attempt_count : ℕ
  pub max_attempts : ℕ
  pub next_attempt_at : ℕ
  pub lease_expires_at : Option ℕ
  pub heartbeat_at : Option ℕ
  pub cancel_requested_at : Option ℕ
  pub error_code : String
  pub error_message : String
  pub retryable : Bool
  pub output_refs : String
  pub delegate_kind : DelegateKind
  pub delegate_job_id : Option ℕ
  pub created_at : ℕ
  pub started_at : Option ℕ
  pub finished_at : Option ℕ
  pub updated_at : ℕ

-- `Unit` of the source.
pub record JobUnit : Type 0 where
  pub id : ℕ
  pub workflow_job_id : ℕ
  pub unit_key : UnitKey
  pub input_hash : String
  pub status : UnitStatus
  pub attempt_count : ℕ
  pub output_ref : String
  pub error_code : String
  pub error_message : String
  pub started_at : Option ℕ
  pub finished_at : Option ℕ
  pub updated_at : ℕ

pub record Usage : Type 0 where
  pub reserved_tokens : ℕ
  pub input_tokens : ℕ
  pub output_tokens : ℕ
  pub reserved_cost : ℕ
  pub actual_cost : ℕ

-- `Job` of the source with its `Units` and `Usage`: what `Get` and `ClaimNext` return.
pub record JobView : Type 0 where
  pub job : Job
  pub units : List JobUnit
  pub usage : Usage

-- The status column of `requirement_extraction_jobs`.
pub data ExtractionStatus : Type 0 where
  pending running completed failed canceled : ExtractionStatus

-- The columns of `requirement_extraction_jobs` that the workflow reads or writes.
pub record ExtractionJob : Type 0 where
  pub id : ℕ
  pub set_id : ℕ
  pub status : ExtractionStatus
  pub total_chunks : ℕ
  pub processed_chunks : ℕ
  pub attempt_count : ℕ
  pub next_attempt_at : ℕ
  pub lease_expires_at : Option ℕ
  pub error_message : String
  pub started_at : Option ℕ
  pub finished_at : Option ℕ
  pub updated_at : ℕ
  pub workflow_job_id : Option ℕ
  pub workflow_unit_id : Option ℕ

pub data IntentStatus : Type 0 where
  waiting_parse indexing extracting succeeded failed superseded : IntentStatus

-- The columns of `document_source_intents` that a retry reads or writes.
pub record SourceIntent : Type 0 where
  pub id : ℕ
  pub set_id : ℕ
  pub status : IntentStatus
  pub index_job_id : Option ℕ
  pub extraction_job_id : Option ℕ
  pub source_revision : ℕ
  pub error_message : String
  pub updated_at : ℕ

-- The columns of `document_sets` that the workflow reads.
pub record DocumentSet : Type 0 where
  pub id : ℕ
  pub source_revision : ℕ

-- The database as the repository sees it; the last two are the id sequences.
pub record Store : Type 0 where
  pub jobs : List Job
  pub units : List JobUnit
  pub extractions : List ExtractionJob
  pub intents : List SourceIntent
  pub sets : List DocumentSet
  pub reservations : List Row
  pub next_job_id : ℕ
  pub next_unit_id : ℕ

-- `Terminal`.
unfoldable pub is_terminal : JobStatus → Bool
is_terminal succeeded = true
is_terminal partial_failed = true
is_terminal failed = true
is_terminal canceled = true
is_terminal _ = false
