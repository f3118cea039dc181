-- ===== src/Workflow/Claim.antt =====
-- backend/internal/workflow/repository.go: `ClaimNext` and `Heartbeat`.

use ai_test_assistant.Prelude.{
  ℕ, ◌+◌, Bool, true, false, ◌&&◌, ◌||◌, Option, none, some, List, [], ◌∷◌, ◌==◌, ltb, leb, is_none,
  is_some, due, coalesce, any_of, count_p, if◌then◌else◌, update, find, Result, ok, err, ◌>>=◌,
  or_err, transaction,
}
use ai_test_assistant.Workflow.Model.{
  Job, JobUnit, JobView, Store, running, failed, UnitStatus, Error, not_found, invalid_input,
  lease_lost, canceled_error, database,
}
use ai_test_assistant.Workflow.Rows.{
  is_queued, is_running, is_failed, is_canceled, is_native, unit_running, unit_claimable, job_is,
  is_operation_unit,
}
use ai_test_assistant.Workflow.Model.{Usage}
use ai_test_assistant.Prelude.{◌=s◌}

-- A running native job whose lease has run out on its last attempt.
unfoldable pub exhausted : ℕ → Job → Bool
exhausted now j =
    is_native j.delegate_kind
    && (is_running j.status && (due j.lease_expires_at now && leb j.max_attempts j.attempt_count))

unfoldable pub set_exhausted : ℕ → Job → Job
set_exhausted now j = record j {
  status = failed;
  revision = j.revision + 1;
  error_code = "ATTEMPTS_EXHAUSTED";
  error_message = "worker lease expired after maximum attempts";
  retryable = true;
  lease_expires_at = none;
  finished_at = some now;
  updated_at = now;
}

-- `job.status='FAILED' AND job.error_code='ATTEMPTS_EXHAUSTED'`, for the job of a unit.
unfoldable pub owner_exhausted : JobUnit → Job → Bool
owner_exhausted u j =
    u.workflow_job_id == j.id && (is_failed j.status && (j.error_code =s "ATTEMPTS_EXHAUSTED"))

unfoldable pub set_unit_exhausted : ℕ → JobUnit → JobUnit
set_unit_exhausted now u = record u {
  status = UnitStatus.failed;
  error_code = "ATTEMPTS_EXHAUSTED";
  error_message = "worker lease expired after maximum attempts";
  finished_at = some now;
  updated_at = now;
}

-- The two statements at the head of `ClaimNext`.
unfoldable pub sweep : ℕ → Store → Store
sweep now s =
    let jobs : List Job = update (exhausted now) (set_exhausted now) s.jobs in
    record s {
      jobs = jobs;
      units =
          update (λ u. any_of (owner_exhausted u) jobs && unit_running u.status)
            (set_unit_exhausted now) s.units;
    }

unfoldable pub claimable : ℕ → Job → Bool
claimable now j =
    is_native j.delegate_kind
    && (is_none j.cancel_requested_at
        && (ltb j.attempt_count j.max_attempts
            && ((is_queued j.status && leb j.next_attempt_at now)
                || (is_running j.status && due j.lease_expires_at now))))

-- `ORDER BY next_attempt_at,created_at,id`.
unfoldable pub before : Job → Job → Bool
before a b =
    ltb a.next_attempt_at b.next_attempt_at
    || (a.next_attempt_at == b.next_attempt_at
        && (ltb a.created_at b.created_at || (a.created_at == b.created_at && ltb a.id b.id)))

unfoldable pub earlier : Job → Option Job → Job
earlier j none = j
earlier j (some k) = if before k j then k else j

-- The query `candidate`.
unfoldable pub first_candidate : ℕ → List Job → Option Job
first_candidate now [] = none
first_candidate now (j ∷ js) =
    let rest = first_candidate now js in if claimable now j then some (earlier j rest) else rest

unfoldable pub set_claimed : ℕ → ℕ → Job → Job
set_claimed lease now j = record j {
  status = running;
  revision = j.revision + 1;
  attempt_count = j.attempt_count + 1;
  started_at = some (coalesce j.started_at now);
  heartbeat_at = some now;
  lease_expires_at = some (now + lease);
  error_code = "";
  error_message = "";
  retryable = false;
  updated_at = now;
}

unfoldable pub claims_unit : ℕ → JobUnit → Bool
claims_unit id u = is_operation_unit id u && unit_claimable u.status

unfoldable pub set_unit_claimed : ℕ → JobUnit → JobUnit
set_unit_claimed now u = record u {
  status = UnitStatus.running;
  attempt_count = u.attempt_count + 1;
  started_at = some (coalesce u.started_at now);
  finished_at = none;
  error_code = "";
  error_message = "";
  updated_at = now;
}

abbrev pub no_usage : Usage
no_usage = record {
  reserved_tokens = 0;
  input_tokens = 0;
  output_tokens = 0;
  reserved_cost = 0;
  actual_cost = 0;
}

-- The statements after the sweep, for the candidate that the query returned.
unfoldable pub take_candidate : ℕ → ℕ → Store → Job → Result Error (Store × JobView)
take_candidate lease now s c = do
  unit ← or_err (find (claims_unit c.id) s.units) database
  ok (
    record s {
      jobs = update (job_is c.id) (set_claimed lease now) s.jobs;
      units = update (claims_unit c.id) (set_unit_claimed now) s.units;
    },
    record {
      job = set_claimed lease now c;
      units = set_unit_claimed now unit ∷ [];
      usage = no_usage;
    },
  )

unfoldable pub claim_body : ℕ → ℕ → Store → Result Error (Store × JobView)
claim_body lease now s = do
  c ← or_err (first_candidate now s.jobs) not_found
  take_candidate lease now s c

-- `ClaimNext`: no candidate is an error return, so the deferred rollback also undoes the sweep.
unfoldable pub claim_next : ℕ → ℕ → Store → Store × Result Error JobView
unfolding claim_body take_candidate
claim_next lease now s =
    if lease == 0
    then (s, err invalid_input)
    else transaction s (claim_body lease now (sweep now s))

-- The row that a worker may renew: its own claim, not canceled since.
unfoldable pub renews : JobView → Job → Bool
renews c j =
    j.id == c.job.id
    && (is_running j.status
        && (j.attempt_count == c.job.attempt_count
            && (j.revision == c.job.revision && is_none j.cancel_requested_at)))

unfoldable pub set_renewed : ℕ → ℕ → Job → Job
set_renewed lease now j = record j {
  heartbeat_at = some now;
  lease_expires_at = some (now + lease);
  updated_at = now;
}

unfoldable pub was_canceled : Option Job → Bool
was_canceled none = false
was_canceled (some j) = is_some j.cancel_requested_at || is_canceled j.status

-- `Heartbeat`.
unfoldable pub heartbeat : JobView → ℕ → ℕ → Store → Store × Result Error (Unit {0})
heartbeat c lease now s =
    let affected = count_p (renews c) s.jobs in
    let t : Store = record s { jobs = update (renews c) (set_renewed lease now) s.jobs } in
    if affected == 1
    then (t, ok tt)
    else if was_canceled (find (job_is c.job.id) t.jobs)
    then (t, err canceled_error)
    else (t, err lease_lost)
