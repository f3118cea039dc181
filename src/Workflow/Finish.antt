-- ===== src/Workflow/Finish.antt =====
-- backend/internal/workflow/repository.go: `Complete`; generation_units.go:
-- `completeGeneration`.
use Prim.Native.String.{String}
use ai_test_assistant.Prelude.{
  ℕ, ◌+◌, Bool, false, not, ◌&&◌, ◌||◌, none, some, List, ◌==◌, ltb, is_none, any_of, count_p,
  if◌then◌else◌, update, Result, ok, ◌>>◌, require, transaction,
}
use ai_test_assistant.Workflow.Model.{
  Job, JobUnit, JobView, Store, JobStatus, succeeded, partial_failed, failed, UnitStatus, Error,
  lease_lost,
}
use ai_test_assistant.Workflow.Rows.{
  is_running, unit_running, unit_succeeded, unit_failed, job_is, is_operation_unit,
  is_generation_unit, unit_attempt,
}

pub record GenerationOutput : Type 0 where
  pub review_proposals : Bool
  pub proposal_count : ℕ
  pub completed_units : ℕ
  pub failed_units : ℕ

-- What a processor returns: `generationOutput`, or any other value, here as its JSON.
pub data Output : Type 0 where
  json : String → Output
  generation : GenerationOutput → Output

-- The job row that `Complete` still holds: `EXISTS(…)` and the `WHERE` of its second statement.
unfoldable pub holds_claim : JobView → Job → Bool
holds_claim c j =
    j.id == c.job.id
    && (is_running j.status
        && (j.attempt_count == c.job.attempt_count && is_none j.cancel_requested_at))

-- The unit row that `Complete` still holds.
unfoldable pub holds_unit : JobView → List Job → JobUnit → Bool
holds_unit c jobs u =
    is_operation_unit c.job.id u
    && (unit_running u.status && (u.attempt_count == unit_attempt c && any_of (holds_claim c) jobs))

unfoldable pub set_unit_completed : String → ℕ → JobUnit → JobUnit
set_unit_completed output now u = record u {
  status = UnitStatus.succeeded;
  output_ref = output;
  error_code = "";
  error_message = "";
  finished_at = some now;
  updated_at = now;
}

unfoldable pub set_completed : String → ℕ → Job → Job
set_completed output now j = record j {
  status = succeeded;
  revision = j.revision + 1;
  completed_units = j.total_units;
  failed_units = 0;
  output_refs = output;
  error_code = "";
  error_message = "";
  retryable = false;
  heartbeat_at = some now;
  lease_expires_at = none;
  finished_at = some now;
  updated_at = now;
}

-- `Complete` for an output that is not a `generationOutput`.
unfoldable pub complete_body : JobView → String → ℕ → Store → Result Error (Store × Unit {0})
complete_body c output now s = do
  require (count_p (holds_unit c s.jobs) s.units == 1) lease_lost
  require (count_p (holds_claim c) s.jobs == 1) lease_lost
  ok (
    record s {
      units = update (holds_unit c s.jobs) (set_unit_completed output now) s.units;
      jobs = update (holds_claim c) (set_completed output now) s.jobs;
    },
    tt,
  )

-- This attempt runs at the claim's revision, not canceled, under a live lease.
unfoldable pub is_live : JobView → ℕ → Job → Bool
is_live c now j =
    is_running j.status
    && (j.attempt_count == c.job.attempt_count
        && (j.revision == c.job.revision
            && (is_none j.cancel_requested_at
                && elim j.lease_expires_at [ none ↦ false | some t ↦ ltb now t ])))

-- The job row that the generation statements lock.
unfoldable pub holds_live : JobView → ℕ → Job → Bool
unfolding is_live
holds_live c now j = job_is c.job.id j && is_live c now j

-- The status of a generation job from its unit counts.
unfoldable pub generation_status : ℕ → ℕ → JobStatus
generation_status completed failures =
    if ltb 0 failures then (if completed == 0 then failed else partial_failed) else succeeded

unfoldable pub generation_unit_status : ℕ → UnitStatus
generation_unit_status failures = if ltb 0 failures then UnitStatus.failed else UnitStatus.succeeded

unfoldable pub generation_code : ℕ → String
generation_code failures = if ltb 0 failures then "GENERATION_UNITS_FAILED" else ""

unfoldable pub generation_message : ℕ → String
generation_message failures =
    if ltb 0 failures
    then "Some generation units failed; retry preserves completed proposals"
    else ""

unfoldable pub set_unit_generated : ℕ → String → ℕ → JobUnit → JobUnit
unfolding generation_unit_status generation_code generation_message
set_unit_generated failures output now u = record u {
  status = generation_unit_status failures;
  output_ref = output;
  error_code = generation_code failures;
  error_message = generation_message failures;
  finished_at = some now;
  updated_at = now;
}

unfoldable pub set_generated : ℕ → ℕ → String → ℕ → Job → Job
unfolding generation_status generation_code generation_message
set_generated completed failures output now j = record j {
  status = generation_status completed failures;
  completed_units = completed;
  failed_units = failures;
  output_refs = output;
  error_code = generation_code failures;
  error_message = generation_message failures;
  retryable = ltb 0 failures;
  revision = j.revision + 1;
  lease_expires_at = none;
  finished_at = some now;
  updated_at = now;
}

-- The stored checkpoints of a job's generation units: all of them, those done, those failed.
unfoldable pub total_count : ℕ → List JobUnit → ℕ
total_count id = count_p (is_generation_unit id)

unfoldable pub completed_count : ℕ → List JobUnit → ℕ
completed_count id = count_p (λ u. is_generation_unit id u && unit_succeeded u.status)

unfoldable pub failed_count : ℕ → List JobUnit → ℕ
failed_count id = count_p (λ u. is_generation_unit id u && unit_failed u.status)

module _ (encode : GenerationOutput → String) where
  -- `completeGeneration`; `encode` is `json.Marshal`.
  unfoldable pub complete_generation :
      JobView → GenerationOutput → ℕ → Store → Result Error (Store × Unit {0})
  unfolding total_count completed_count failed_count
  complete_generation c out now s = do
    require (any_of (holds_live c now) s.jobs) lease_lost
    let completed = completed_count c.job.id s.units
    let failures = failed_count c.job.id s.units
    let total = total_count c.job.id s.units
    require (not (total == 0 || not (completed + failures == total))) lease_lost
    let output = encode (record out { completed_units = completed; failed_units = failures })
    ok (
      record s {
        units =
            update (is_operation_unit c.job.id) (set_unit_generated failures output now) s.units;
        jobs = update (job_is c.job.id) (set_generated completed failures output now) s.jobs;
      },
      tt,
    )

  -- `Complete`.
  unfoldable pub complete : JobView → Output → ℕ → Store → Store × Result Error (Unit {0})
  unfolding complete_body complete_generation
  complete c (json output) now s = transaction s (complete_body c output now s)
  complete c (generation out) now s = transaction s (complete_generation c out now s)
