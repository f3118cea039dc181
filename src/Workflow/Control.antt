-- ===== src/Workflow/Control.antt =====
-- backend/internal/workflow/repository.go: `Get` with `reconcileDelegated`, `Cancel` and `Retry`.

use ai_test_assistant.Prelude.{
  ℕ, ◌+◌, ◌-◌, max, Bool, true, false, not, ◌&&◌, ◌||◌, Option, none, some, List, [], ◌∷◌, ◌==◌,
  has_id, any_of, count_p, keep_if, if◌then◌else◌, update, find, Result, ok, err, ◌>>=◌, ◌>>◌,
  require, or_err, transaction,
}
use ai_test_assistant.Budget.Model.{Row, is_reserved, is_completed}
use ai_test_assistant.Workflow.Model.{
  Job, JobUnit, JobView, Usage, Store, JobStatus, queued, running, succeeded, partial_failed,
  failed, canceled, UnitStatus, ExtractionJob, ExtractionStatus, SourceIntent, IntentStatus,
  DocumentSet, Error, not_found, invalid_input, revision_conflict, not_retryable, not_cancelable,
  database,
}
use ai_test_assistant.Workflow.Rows.{
  is_queued, is_running, is_active, is_failed, is_canceled, is_retryable, is_native, unit_open,
  unit_reopens, unit_succeeded, job_is, is_generation_unit, active_unique,
}

-- The column `mapped_status` of `reconcileDelegated`.
unfoldable pub mapped_status : ExtractionStatus → JobStatus
mapped_status ExtractionStatus.pending = queued
mapped_status ExtractionStatus.running = running
mapped_status ExtractionStatus.completed = succeeded
mapped_status ExtractionStatus.failed = failed
mapped_status ExtractionStatus.canceled = canceled

unfoldable pub same_status : JobStatus → JobStatus → Bool
same_status queued queued = true
same_status running running = true
same_status succeeded succeeded = true
same_status partial_failed partial_failed = true
same_status failed failed = true
same_status canceled canceled = true
same_status _ _ = false

unfoldable pub set_reconciled : ExtractionJob → ℕ → Job → Job
unfolding mapped_status same_status
set_reconciled x now j =
    let mapped = mapped_status x.status in
    record j {
      status = mapped;
      total_units = x.total_chunks;
      completed_units = x.processed_chunks;
      failed_units = if is_failed mapped then max (x.total_chunks - x.processed_chunks) 1 else 0;
      attempt_count = x.attempt_count;
      error_code =
          if is_failed mapped
          then "REQUIREMENT_EXTRACTION_FAILED"
          else if is_canceled mapped
          then "CANCELED"
          else "";
      error_message = x.error_message;
      retryable = is_failed mapped;
      started_at = x.started_at;
      finished_at = x.finished_at;
      heartbeat_at = if is_running mapped then some now else j.heartbeat_at;
      updated_at = now;
      revision = if same_status j.status mapped then j.revision else j.revision + 1;
    }

-- `CASE job.status …` for the units of a delegated job.
unfoldable pub unit_status_of : JobStatus → UnitStatus → UnitStatus
unit_status_of queued u = UnitStatus.queued
unit_status_of running u = UnitStatus.running
unit_status_of succeeded u = UnitStatus.succeeded
unit_status_of failed u = UnitStatus.failed
unit_status_of canceled u = UnitStatus.canceled
unit_status_of partial_failed u = u

unfoldable pub set_unit_reconciled : Job → ℕ → JobUnit → JobUnit
unfolding unit_status_of
set_unit_reconciled j now u = record u {
  status = unit_status_of j.status u.status;
  attempt_count = j.attempt_count;
  error_code = j.error_code;
  error_message = j.error_message;
  started_at = j.started_at;
  finished_at = j.finished_at;
  updated_at = now;
}

-- The delegated job of an id, and the extraction job that it points to.
unfoldable pub delegated : ℕ → Store → Option (Job × ExtractionJob)
delegated id s = elim (find (λ j. job_is id j && not (is_native j.delegate_kind)) s.jobs) [
  | none ↦ none
  | some j ↦ elim (find (λ x. has_id j.delegate_job_id x.id) s.extractions) [
    | none ↦ none
    | some x ↦ some (j, x)
  ]
]

-- The second statement of `reconcileDelegated`.
unfoldable pub reconcile_units : ℕ → ℕ → Store → Store
unfolding set_unit_reconciled
reconcile_units id now s =
    elim (find (λ j. job_is id j && not (is_native j.delegate_kind)) s.jobs) [
      | none ↦ s
      | some j ↦ record s {
        units = update (λ u. u.workflow_job_id == id) (set_unit_reconciled j now) s.units;
      }
    ]

-- `reconcileDelegated`: two statements with no transaction around them; the first can break the unique
-- index on active operations.
unfoldable pub reconcile_delegated : ℕ → ℕ → Store → Store × Result Error (Unit {0})
unfolding delegated set_reconciled active_unique reconcile_units
reconcile_delegated id now s = elim (delegated id s) [
  | none ↦ (reconcile_units id now s, ok tt)
  | some (_, x) ↦
      (let t : Store = record s { jobs = update (job_is id) (set_reconciled x now) s.jobs } in
        if active_unique t.jobs then (reconcile_units id now t, ok tt) else (s, err database))
]

-- `sum(…) FILTER(WHERE …)` over the reservations of a job.
unfoldable pub sum_where : (Row → Bool) → (Row → ℕ) → List Row → ℕ
sum_where p f [] = 0
sum_where p f (r ∷ rs) = (if p r then f r else 0) + sum_where p f rs

unfoldable pub usage_of : ℕ → List Row → Usage
unfolding sum_where is_reserved is_completed
usage_of id rows =
    let held : Row → Bool = λ r. has_id r.workflow_job_id id && is_reserved r.status in
    let done : Row → Bool = λ r. has_id r.workflow_job_id id && is_completed r.status in
    record {
      reserved_tokens = sum_where held (λ r. r.reserved_tokens) rows;
      input_tokens = sum_where done (λ r. r.input_tokens) rows;
      output_tokens = sum_where done (λ r. r.output_tokens) rows;
      reserved_cost = sum_where held (λ r. r.reserved_cost) rows;
      actual_cost = sum_where done (λ r. r.actual_cost) rows;
    }

-- The reads of `Get`. Units are inserted with rising ids, so the table holds them by id.
unfoldable pub load : ℕ → Store → Result Error JobView
unfolding usage_of
load id s = do
  j ← or_err (find (job_is id) s.jobs) not_found
  ok (record {
    job = j;
    units = keep_if (λ u. u.workflow_job_id == id) s.units;
    usage = usage_of id s.reservations;
  })

-- `Get`.
unfoldable pub get : ℕ → ℕ → Store → Store × Result Error JobView
unfolding reconcile_delegated load
get id now s =
    if id == 0
    then (s, err invalid_input)
    else (let (t, done) = reconcile_delegated id now s in (t, done >> load id t))

-- `tx.Commit` and then `r.Get`.
unfoldable pub then_get : ℕ → ℕ → Store × Result Error (Unit {0}) → Store × Result Error JobView
unfolding get
then_get id now (s, ok _) = get id now s
then_get id now (s, err e) = (s, err e)

-- The row that `Cancel` and `Retry` lock: `id=$1 AND revision=$2`.
unfoldable pub at_revision : ℕ → ℕ → Job → Bool
at_revision id revision j = j.id == id && j.revision == revision

-- `status IN ('PENDING','RUNNING')`.
unfoldable pub extraction_open : ExtractionStatus → Bool
extraction_open ExtractionStatus.pending = true
extraction_open ExtractionStatus.running = true
extraction_open _ = false

unfoldable pub set_extraction_canceled : ℕ → ExtractionJob → ExtractionJob
set_extraction_canceled now x = record x {
  status = ExtractionStatus.canceled;
  lease_expires_at = none;
  finished_at = some now;
  updated_at = now;
  error_message = "canceled by workflow user";
}

-- `delegateKind == "REQUIREMENT_EXTRACTION" && delegateID != nil && id = *delegateID`.
unfoldable pub is_delegate_of : Job → ExtractionJob → Bool
is_delegate_of j x = not (is_native j.delegate_kind) && has_id j.delegate_job_id x.id

unfoldable pub set_unit_canceled : ℕ → JobUnit → JobUnit
set_unit_canceled now u = record u {
  status = UnitStatus.canceled;
  error_code = "CANCELED";
  error_message = "workflow canceled by user";
  finished_at = some now;
  updated_at = now;
}

unfoldable pub set_canceled : ℕ → Job → Job
set_canceled now j = record j {
  status = if is_queued j.status then canceled else j.status;
  revision = j.revision + 1;
  cancel_requested_at = some now;
  error_code = "CANCELED";
  error_message = "workflow canceled by user";
  retryable = false;
  lease_expires_at = if is_queued j.status then none else j.lease_expires_at;
  finished_at = if is_queued j.status then some now else j.finished_at;
  updated_at = now;
}

unfoldable pub cancel_body : ℕ → ℕ → ℕ → Store → Result Error (Store × Unit {0})
unfolding is_delegate_of extraction_open
cancel_body id revision now s = do
  row ← or_err (find (at_revision id revision) s.jobs) revision_conflict
  require (is_active row.status) not_cancelable
  ok (
    record s {
      extractions =
          update (λ x. is_delegate_of row x && extraction_open x.status)
            (set_extraction_canceled now) s.extractions;
      units =
          update (λ u. u.workflow_job_id == id && unit_open u.status) (set_unit_canceled now)
            s.units;
      jobs = update (job_is id) (set_canceled now) s.jobs;
    },
    tt,
  )

-- `Cancel`.
unfoldable pub cancel : ℕ → ℕ → ℕ → Store → Store × Result Error JobView
unfolding cancel_body then_get
cancel id revision now s =
    if id == 0 || revision == 0
    then (s, err invalid_input)
    else then_get id now (transaction s (cancel_body id revision now s))

unfoldable pub set_extraction_reopened : ℕ → ExtractionJob → ExtractionJob
set_extraction_reopened now x = record x {
  status = ExtractionStatus.pending;
  attempt_count = 0;
  next_attempt_at = now;
  lease_expires_at = none;
  error_message = "";
  started_at = none;
  finished_at = none;
  updated_at = now;
}

unfoldable pub set_unit_reopened : ℕ → JobUnit → JobUnit
set_unit_reopened now u = record u {
  status = UnitStatus.queued;
  error_code = "";
  error_message = "";
  finished_at = none;
  updated_at = now;
}

unfoldable pub set_reopened : ℕ → ℕ → Job → Job
set_reopened completed now j = record j {
  status = queued;
  revision = j.revision + 1;
  attempt_count = 0;
  completed_units = completed;
  failed_units = 0;
  next_attempt_at = now;
  lease_expires_at = none;
  heartbeat_at = none;
  cancel_requested_at = none;
  error_code = "";
  error_message = "";
  retryable = false;
  started_at = none;
  finished_at = none;
  updated_at = now;
}

unfoldable pub intent_failed : IntentStatus → Bool
intent_failed IntentStatus.failed = true
intent_failed _ = false

-- A failed continuation of this job whose set still has the revision that it was made for.
unfoldable pub reopens_intent : ℕ → List DocumentSet → SourceIntent → Bool
reopens_intent id sets i =
    intent_failed i.status
    && ((has_id i.index_job_id id || has_id i.extraction_job_id id)
        && any_of (λ d. d.id == i.set_id && d.source_revision == i.source_revision) sets)

unfoldable pub set_intent_reopened : ℕ → ℕ → SourceIntent → SourceIntent
set_intent_reopened id now i = record i {
  status = if has_id i.extraction_job_id id then IntentStatus.extracting else IntentStatus.indexing;
  error_message = "";
  updated_at = now;
}

-- The store after the statements of `Retry`.
unfoldable pub reopened : Job → ℕ → ℕ → Store → Store
unfolding is_delegate_of intent_failed reopens_intent
reopened row id now s =
    let units : List JobUnit =
      update (λ u. u.workflow_job_id == id && unit_reopens u.status) (set_unit_reopened now)
        s.units in
    let done = count_p (λ u. is_generation_unit id u && unit_succeeded u.status) units in
    record s {
      extractions = update (is_delegate_of row) (set_extraction_reopened now) s.extractions;
      units = units;
      jobs = update (job_is id) (set_reopened done now) s.jobs;
      intents = update (reopens_intent id s.sets) (set_intent_reopened id now) s.intents;
    }

unfoldable pub retry_body : ℕ → ℕ → ℕ → Store → Result Error (Store × Unit {0})
unfolding reopened
retry_body id revision now s = do
  row ← or_err (find (at_revision id revision) s.jobs) revision_conflict
  require (is_retryable row.status) not_retryable
  let t = reopened row id now s
  require (active_unique t.jobs) database
  ok (t, tt)

-- `Retry`.
unfoldable pub retry : ℕ → ℕ → ℕ → Store → Store × Result Error JobView
unfolding retry_body then_get
retry id revision now s =
    if id == 0 || revision == 0
    then (s, err invalid_input)
    else then_get id now (transaction s (retry_body id revision now s))
