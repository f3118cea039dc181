-- ===== src/Workflow/Fail.antt =====
-- backend/internal/workflow/repository.go: `Fail`.
use Prim.Native.String.{String}
use ai_test_assistant.Prelude.{
  ℕ, ◌+◌, Bool, false, not, ◌&&◌, ◌||◌, Option, none, some, ◌==◌, ◌=s◌, ltb, is_some, count_p,
  if◌then◌else◌, update, find, Result, ok, ◌>>=◌, ◌>>◌, require, or_err, transaction,
}
use ai_test_assistant.Workflow.Model.{
  Job, JobUnit, JobView, Store, JobStatus, queued, failed, canceled, UnitStatus, Error, lease_lost,
  database,
}
use ai_test_assistant.Workflow.Rows.{is_running, is_queued, is_operation_unit, job_is, unit_attempt}
use ai_test_assistant.Workflow.Errors.{ProcessError, is_cancellation, truncate_error}

-- This attempt, at the claim's revision or canceled since.
unfoldable pub is_attempt : JobView → Job → Bool
is_attempt c j =
    j.attempt_count == c.job.attempt_count
    && (j.revision == c.job.revision || is_some j.cancel_requested_at)

-- The row that `Fail` locks.
unfoldable pub fails_claim : JobView → Job → Bool
unfolding is_attempt
fails_claim c j = job_is c.job.id j && is_attempt c j

-- What `Fail` decides: the statuses, the code, the message and whether a retry makes sense.
pub record Verdict : Type 0 where
  pub status : JobStatus
  pub unit_status : UnitStatus
  pub code : String
  pub message : Option String
  pub retryable : Bool

unfoldable pub verdict : JobView → ProcessError → String → Bool → Bool → Verdict
verdict c cause code retryable cancel_requested =
    if cancel_requested || is_cancellation cause
    then record {
      status = canceled;
      unit_status = UnitStatus.canceled;
      code = "CANCELED";
      message = some "workflow canceled by user";
      retryable = false;
    }
    else (if retryable && (ltb c.job.attempt_count c.job.max_attempts && not cancel_requested)
        then record {
          status = queued;
          unit_status = UnitStatus.queued;
          code = code;
          message = truncate_error cause;
          retryable = retryable;
        }
        else record {
          status = failed;
          unit_status = UnitStatus.failed;
          code = code;
          message = truncate_error cause;
          retryable = retryable;
        })

-- The unit row that `Fail` writes.
unfoldable pub fails_unit : JobView → JobUnit → Bool
fails_unit c u = is_operation_unit c.job.id u && u.attempt_count == unit_attempt c

unfoldable pub set_unit_failed : Verdict → String → ℕ → JobUnit → JobUnit
set_unit_failed v message now u = record u {
  status = v.unit_status;
  error_code = v.code;
  error_message = message;
  finished_at = if is_queued v.status then none else some now;
  updated_at = now;
}

-- The job row that `Fail` writes.
unfoldable pub fails_job : JobView → Job → Bool
fails_job c j = j.id == c.job.id && (is_running j.status && j.attempt_count == c.job.attempt_count)

unfoldable pub set_failed : Verdict → String → ℕ → ℕ → Job → Job
set_failed v message delay now j = record j {
  status = v.status;
  revision = j.revision + 1;
  failed_units = if is_queued v.status then 0 else 1;
  error_code = v.code;
  error_message = message;
  retryable = v.retryable;
  next_attempt_at = if is_queued v.status then now + delay else j.next_attempt_at;
  lease_expires_at = none;
  finished_at = if is_queued v.status then none else some now;
  updated_at = now;
}

unfoldable pub default_code : String → String
default_code code = if code =s "" then "WORKFLOW_PROCESSING_FAILED" else code

unfoldable pub fail_body :
    JobView → ProcessError → String → Bool → ℕ → ℕ → Store → Result Error (Store × Unit {0})
unfolding default_code
fail_body c cause code retryable delay now s = do
  row ← or_err (find (fails_claim c) s.jobs) lease_lost
  require (is_running row.status) lease_lost
  let v = verdict c cause (default_code code) retryable (is_some row.cancel_requested_at)
  message ← or_err v.message database
  require (count_p (fails_job c) s.jobs == 1) lease_lost
  ok (
    record s {
      units = update (fails_unit c) (set_unit_failed v message now) s.units;
      jobs = update (fails_job c) (set_failed v message delay now) s.jobs;
    },
    tt,
  )

-- `Fail`.
unfoldable pub fail :
    JobView → ProcessError → String → Bool → ℕ → ℕ → Store → Store × Result Error (Unit {0})
unfolding fail_body
fail c cause code retryable delay now s =
    transaction s (fail_body c cause code retryable delay now s)
