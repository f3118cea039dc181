-- ===== src/Analysis/Model.antt =====
-- The rows of the analysis pipeline (backend/internal/job/model.go and the tables of
-- backend/migrations/000001, 000002, 000003, 000004 and 000017). Times are numbers; a nullable
-- column is an option.
use Prim.Native.String.{String}
use ai_test_assistant.Prelude.{ℕ, Bool, Option, List}

-- The `Status…` constants.
pub data Status : Type 0 where
  pending : Status
  fetching_source : Status
  analyzing_change : Status
  retrieving_context : Status
  recommending_tests : Status
  generating_tests : Status
  validating : Status
  repairing : Status
  waiting_review : Status
  accepted : Status
  rejected : Status
  failed : Status

-- `status = $1`.
abbrev pub code : Status → ℕ
code pending = 0
code fetching_source = 1
code analyzing_change = 2
code retrieving_context = 3
code recommending_tests = 4
code generating_tests = 5
code validating = 6
code repairing = 7
code waiting_review = 8
code accepted = 9
code rejected = 10
code failed = 11

-- A row of `analysis_jobs`.
pub record AnalysisJob : Type 0 where
  pub id : ℕ
  pub project_id : ℕ
  pub merge_request_iid : ℕ
  pub source_sha : String
  pub target_sha : String
  pub source_branch : String
  pub target_branch : String
  pub title : String
  pub web_url : String
  pub status : Status
  pub error_message : Option String
  pub webhook_uuid : String
  pub attempt_count : ℕ
  pub raw_event : String
  pub next_attempt_at : ℕ
  pub lease_expires_at : Option ℕ
  pub started_at : Option ℕ
  pub finished_at : Option ℕ
  pub created_at : ℕ

-- `EnqueueInput`.
pub record EnqueueInput : Type 0 where
  pub project_id : ℕ
  pub merge_request_iid : ℕ
  pub source_sha : String
  pub webhook_uuid : String
  pub raw_event : String

-- `MergeRequestMetadata`.
pub record MergeRequestMetadata : Type 0 where
  pub source_sha : String
  pub target_sha : String
  pub source_branch : String
  pub target_branch : String
  pub title : String
  pub web_url : String

-- `ChangedFile`.
pub record ChangedFile : Type 0 where
  pub id : ℕ
  pub analysis_job_id : ℕ
  pub old_path : String
  pub new_path : String
  pub change_type : String
  pub additions : ℕ
  pub deletions : ℕ
  pub diff : String
  pub new_file : Bool
  pub renamed_file : Bool
  pub deleted_file : Bool
  pub collapsed : Bool
  pub too_large : Bool

-- `signal_type` of a row of `analysis_scope_signals`.
pub data SignalType : Type 0 where
  path : SignalType
  module_signal : SignalType
  symbol : SignalType

pub record ScopeSignal : Type 0 where
  pub analysis_job_id : ℕ
  pub signal_type : SignalType
  pub signal_value : String

-- The columns of a row of `test_runs` that the pipeline writes, and whether it is `PENDING`.
pub record ScopedRun : Type 0 where
  pub analysis_job_id : ℕ
  pub is_pending : Bool
  pub source_sha : String
  pub target_sha : String

-- The tables. `baselines` are the analyses with a row of `analysis_baseline_snapshots`.
pub record Store : Type 0 where
  pub jobs : List AnalysisJob
  pub next_id : ℕ
  pub changed_files : List ChangedFile
  pub next_file_id : ℕ
  pub scope_signals : List ScopeSignal
  pub baselines : List ℕ
  pub test_runs : List ScopedRun

-- `ErrNotFound` and `ErrLeaseLost`.
pub data QueueError : Type 0 where
  not_found : QueueError
  lease_lost : QueueError

-- The six workers, each with a queue of its own.
pub data Stage : Type 0 where
  fetch : Stage
  change : Stage
  recommend : Stage
  generate : Stage
  validate : Stage
  repair : Stage

-- The status in which a queue finds new work, and to which it returns work to retry.
abbrev pub waiting : Stage → Status
waiting fetch = pending
waiting change = analyzing_change
waiting recommend = retrieving_context
waiting generate = generating_tests
waiting validate = validating
waiting repair = repairing

-- The status of work that a worker of the stage holds.
abbrev pub active : Stage → Status
active fetch = fetching_source
active change = analyzing_change
active recommend = recommending_tests
active generate = generating_tests
active validate = validating
active repair = repairing
