-- ===== src/Workflow/Rows.antt =====
-- backend/internal/workflow/repository.go: the tests and assignments of its SQL statements, a row at
-- a time.

use ai_test_assistant.Prelude.{ℕ, Bool, true, false, not, ◌&&◌, List, [], ◌∷◌, ◌==◌, any_of}
use ai_test_assistant.Workflow.Model.{
  Operation, index_documents, extract_requirements, generate_testcases, JobStatus, queued, running,
  partial_failed, failed, canceled, UnitStatus, DelegateKind, native, requirement_extraction,
  UnitKey, operation_key, requirement_key, retire_key, Job, JobUnit, JobView,
}

abbrev pub same_operation : Operation → Operation → Bool
same_operation index_documents index_documents = true
same_operation extract_requirements extract_requirements = true
same_operation generate_testcases generate_testcases = true
same_operation _ _ = false

abbrev pub is_queued : JobStatus → Bool
is_queued queued = true
is_queued _ = false

abbrev pub is_running : JobStatus → Bool
is_running running = true
is_running _ = false

-- `status IN ('QUEUED','RUNNING')`.
abbrev pub is_active : JobStatus → Bool
is_active queued = true
is_active running = true
is_active _ = false

-- The statuses that `Retry` accepts.
abbrev pub is_retryable : JobStatus → Bool
is_retryable failed = true
is_retryable partial_failed = true
is_retryable canceled = true
is_retryable _ = false

abbrev pub is_failed : JobStatus → Bool
is_failed failed = true
is_failed _ = false

abbrev pub is_canceled : JobStatus → Bool
is_canceled canceled = true
is_canceled _ = false

abbrev pub unit_running : UnitStatus → Bool
unit_running UnitStatus.running = true
unit_running _ = false

abbrev pub unit_succeeded : UnitStatus → Bool
unit_succeeded UnitStatus.succeeded = true
unit_succeeded _ = false

abbrev pub unit_failed : UnitStatus → Bool
unit_failed UnitStatus.failed = true
unit_failed _ = false

-- `status IN ('QUEUED','RUNNING')`.
abbrev pub unit_open : UnitStatus → Bool
unit_open UnitStatus.queued = true
unit_open UnitStatus.running = true
unit_open _ = false

-- `status IN ('FAILED','CANCELED')`.
abbrev pub unit_reopens : UnitStatus → Bool
unit_reopens UnitStatus.failed = true
unit_reopens UnitStatus.canceled = true
unit_reopens _ = false

-- `status IN ('QUEUED','RUNNING','FAILED')`.
abbrev pub unit_claimable : UnitStatus → Bool
unit_claimable UnitStatus.queued = true
unit_claimable UnitStatus.running = true
unit_claimable UnitStatus.failed = true
unit_claimable _ = false

-- `unit_key='operation'`.
abbrev pub is_operation_key : UnitKey → Bool
is_operation_key operation_key = true
is_operation_key _ = false

abbrev pub same_key : UnitKey → UnitKey → Bool
same_key operation_key operation_key = true
same_key (requirement_key a) (requirement_key b) = a == b
same_key retire_key retire_key = true
same_key _ _ = false

-- `delegate_kind=''`.
abbrev pub is_native : DelegateKind → Bool
is_native native = true
is_native requirement_extraction = false

-- `WHERE id=$1`.
abbrev pub job_is : ℕ → Job → Bool
job_is id j = j.id == id

-- The row of `workflow_job_id=$1 AND unit_key='operation'`.
abbrev pub is_operation_unit : ℕ → JobUnit → Bool
is_operation_unit id u = u.workflow_job_id == id && is_operation_key u.unit_key

-- The generation units of a job: `workflow_job_id=$1 AND unit_key<>'operation'`.
abbrev pub is_generation_unit : ℕ → JobUnit → Bool
is_generation_unit id u = u.workflow_job_id == id && not (is_operation_key u.unit_key)

-- `claimed.Units[0].AttemptCount`; a claimed job has exactly one unit.
abbrev pub unit_attempt : JobView → ℕ
unit_attempt c = elim c.units [ [] ↦ 0 | u ∷ _ ↦ u.attempt_count ]

-- The unique index on the active operation of a document set.
abbrev pub active_clash : Job → Job → Bool
active_clash j k =
    j.set_id == k.set_id
    && (same_operation j.operation k.operation && (is_active j.status && is_active k.status))

-- No two rows break that index.
unfoldable pub active_unique : List Job → Bool
active_unique [] = true
active_unique (j ∷ js) = not (any_of (active_clash j) js) && active_unique js
