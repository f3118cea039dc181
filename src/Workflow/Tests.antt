-- ===== src/Workflow/Tests.antt =====
-- The theorems on the workflow at concrete stores.
use Prim.Native.String.{String}
use ai_test_assistant.Prelude.{
  ◌+◌, ◌≡◌, refl, true, false, none, some, List, [], ◌∷◌, All, arith, ok, err, update, find, any_of,
  map,
}
use ai_test_assistant.Workflow.Model.{
  UnitKey, index_documents, generate_testcases, Job, JobUnit, JobView, Store, JobStatus, UnitStatus,
  operation_key, requirement_key, native, not_found, is_terminal,
}
use ai_test_assistant.Workflow.Rows.{job_is}
use ai_test_assistant.Workflow.Errors.{ProcessError, truncate_error, is_cancellation}
use ai_test_assistant.Workflow.Claim.{
  first_candidate, exhausted, claims_unit, owner_exhausted, earlier, set_exhausted, sweep,
  claimable, claim_next, set_claimed, set_unit_claimed, no_usage,
}
use ai_test_assistant.Workflow.Finish.{
  GenerationOutput, generation, complete, holds_live, total_count, completed_count, failed_count,
}
use ai_test_assistant.Workflow.Fail.{fail, fails_claim, fails_job, verdict, set_failed}
use ai_test_assistant.Workflow.Consistency.{IsConsistent}
use ai_test_assistant.Workflow.Lifecycle.{IsValidJob}
use ai_test_assistant.Workflow.Invariant.{Inv, Reach-Inv}
use ai_test_assistant.Workflow.Step.{here, next, claims, completes}
use ai_test_assistant.Workflow.Stale.{RefusesClaim, stale_claim_refused}
use ai_test_assistant.Workflow.Picking.{Took, claim_takes_oldest, idle_claim_undoes_sweep}
use ai_test_assistant.Workflow.Ending.{EndsAttempt, fail-EndsAttempt}
use ai_test_assistant.Workflow.Snapshot.{
  Version, IndexSnapshot, build_index_snapshot, mark_included,
}
use ai_test_assistant.Workflow.Units.{Generated, proposals, process_units}
use ai_test_assistant.Workflow.Counted.{Mark, RanAll, Adds, units_counted_once}
use ai_test_assistant.Workflow.Generation.{begin_generation_unit, is_unit}
use ai_test_assistant.Workflow.Sources.{IsReadyVersion, index_snapshot_ready}
use ai_test_assistant.Guide.Selection.{sort_ids}
use ai_test_assistant.Workflow.Checkpoints.{EndsGeneration, generation_ends_by_checkpoints}

abbrev encode_output : GenerationOutput → String
encode_output _ = "{}"

-- An indexing job that waits since time 1.
abbrev waiting : Job
waiting = record {
  id = 1;
  set_id = 7;
  operation = index_documents;
  status = JobStatus.queued;
  revision = 1;
  input_snapshot = "{}";
  input_hash = "hash";
  requested_by = "user";
  idempotency_key = "key";
  total_units = 1;
  completed_units = 0;
  failed_units = 0;
  attempt_count = 0;
  max_attempts = 3;
  next_attempt_at = 1;
  lease_expires_at = none;
  heartbeat_at = none;
  cancel_requested_at = none;
  error_code = "";
  error_message = "";
  retryable = false;
  output_refs = "{}";
  delegate_kind = native;
  delegate_job_id = none;
  created_at = 1;
  started_at = none;
  finished_at = none;
  updated_at = 1;
}

abbrev waiting_unit : JobUnit
waiting_unit = record {
  id = 1;
  workflow_job_id = 1;
  unit_key = operation_key;
  input_hash = "hash";
  status = UnitStatus.queued;
  attempt_count = 0;
  output_ref = "{}";
  error_code = "";
  error_message = "";
  started_at = none;
  finished_at = none;
  updated_at = 1;
}

abbrev store_of : List Job → List JobUnit → Store
store_of jobs units = record {
  jobs = jobs;
  units = units;
  extractions = [];
  intents = [];
  sets = [];
  reservations = [];
  next_job_id = 2;
  next_unit_id = 4;
}

abbrev start : Store
start = store_of (waiting ∷ []) (waiting_unit ∷ [])

start-IsConsistent : IsConsistent start
start-IsConsistent = record {
  one_job = λ id. ground arith;
  one_unit = λ id. ground arith;
  known_jobs = (omega arith, tt);
  known_owners = (omega arith, tt);
}

-- The claim at time 10 for 5 units of time, and the one that replaces it at time 20.
abbrev claimed_first : Store
claimed_first = (claim_next 5 10 start).0

abbrev first_job : Job
first_job = record waiting {
  status = JobStatus.running;
  revision = 2;
  attempt_count = 1;
  started_at = some 10;
  heartbeat_at = some 10;
  lease_expires_at = some 15;
  updated_at = 10;
}

abbrev first_unit : JobUnit
first_unit = record waiting_unit {
  status = UnitStatus.running;
  attempt_count = 1;
  started_at = some 10;
  updated_at = 10;
}

abbrev view : Job → JobUnit → JobView
view j u = record { job = j; units = u ∷ []; usage = no_usage }

abbrev first_claim : JobView
first_claim = view first_job first_unit

abbrev after_first : Store
after_first = store_of (first_job ∷ []) (first_unit ∷ [])

abbrev second_job : Job
second_job = record first_job {
  revision = 3;
  attempt_count = 2;
  heartbeat_at = some 20;
  lease_expires_at = some 25;
  updated_at = 20;
}

abbrev second_unit : JobUnit
second_unit = record first_unit { attempt_count = 2; updated_at = 20 }

abbrev after_second : Store
after_second = store_of (second_job ∷ []) (second_unit ∷ [])

claims_first : claim_next 5 10 start ≡ (after_first, ok first_claim)
unfolding claim_next first_candidate sweep update claimable exhausted find claims_unit
    owner_exhausted earlier set_claimed set_unit_claimed
claims_first = refl

claims_second : claim_next 5 20 after_first ≡ (after_second, ok (view second_job second_unit))
unfolding claim_next first_candidate sweep update claimable exhausted find claims_unit
    owner_exhausted earlier set_claimed set_unit_claimed
claims_second = refl

stale_claim_refused_example : RefusesClaim encode_output first_claim after_second
stale_claim_refused_example =
    stale_claim_refused encode_output 5 5 10 20 start after_first after_first after_second
      after_second first_claim (view second_job second_unit) start-IsConsistent claims_first here
      claims_second refl here

start-IsValidJob : IsValidJob waiting
unfolding is_terminal
start-IsValidJob = record {
  bounded = λ _. omega arith;
  leased = λ _. refl;
  finished = λ _. refl;
  waiting = λ _ _. refl;
  uncanceled = λ _ _. refl;
}

start-Inv : Inv start
start-Inv = record { keys = start-IsConsistent; valid = (start-IsValidJob, tt) }

claim_takes_oldest_example : (row : Job) × Took 5 10 start after_first first_claim row
claim_takes_oldest_example =
    claim_takes_oldest 5 10 start after_first first_claim start-IsConsistent claims_first

Reach-Inv_example :
    Inv
      (complete encode_output first_claim
        (generation (record {
          review_proposals = true;
          proposal_count = 0;
          completed_units = 0;
          failed_units = 0;
        }))
        12
        (claim_next 5 10 start).0).0
Reach-Inv_example =
    Reach-Inv start-Inv (next (next here (claims 5 10)) (completes encode_output first_claim _ 12))

-- A running job on its last attempt whose lease is over.
abbrev stuck_job : Job
stuck_job = record first_job { max_attempts = 1 }

abbrev stuck : Store
stuck = store_of (stuck_job ∷ []) (first_unit ∷ [])

idle_claim_undoes_sweep_example : claim_next 5 30 stuck ≡ (stuck, err not_found)
unfolding claimable sweep exhausted set_exhausted update
idle_claim_undoes_sweep_example = idle_claim_undoes_sweep 4 30 stuck (refl, tt)

-- A cancel that came while the first claim ran.
abbrev canceled_job : Job
canceled_job = record first_job { revision = 3; cancel_requested_at = some 11 }

abbrev canceled_store : Store
canceled_store =
    store_of (canceled_job ∷ []) (record first_unit { status = UnitStatus.canceled } ∷ [])

abbrev no_answer : ProcessError
no_answer = record { text = "no answer"; wraps = λ _. false }

after_first-IsConsistent : IsConsistent after_first
after_first-IsConsistent = record {
  one_job = λ id. ground arith;
  one_unit = λ id. ground arith;
  known_jobs = (omega arith, tt);
  known_owners = (omega arith, tt);
}

fail-EndsAttempt_example :
    (t : Store) × (after : Job) × (fail first_claim no_answer "" true 60 12 after_first
      ≡ (t, ok tt))
    × (find (job_is 1) t.jobs ≡ some after)
    × EndsAttempt first_claim no_answer true 60 12 first_job after
unfolding find fails_claim verdict truncate_error is_cancellation
fail-EndsAttempt_example =
    fail-EndsAttempt first_claim no_answer "" true 60 12 after_first first_job "no answer"
      after_first-IsConsistent refl refl refl

-- A generation job with one unit done and one failed.
abbrev done_unit : JobUnit
done_unit = record first_unit {
  id = 2;
  unit_key = requirement_key 4;
  status = UnitStatus.succeeded;
}

abbrev broken_unit : JobUnit
broken_unit = record first_unit { id = 3; unit_key = requirement_key 5; status = UnitStatus.failed }

abbrev generating_job : Job
generating_job = record first_job { operation = generate_testcases; total_units = 2 }

abbrev generating : Store
generating = store_of (generating_job ∷ []) (first_unit ∷ done_unit ∷ broken_unit ∷ [])

generating-IsConsistent : IsConsistent generating
generating-IsConsistent = record {
  one_job = λ id. ground arith;
  one_unit = λ id. ground arith;
  known_jobs = (omega arith, tt);
  known_owners = (omega arith, (omega arith, (omega arith, tt)));
}

abbrev reported : GenerationOutput
reported = record {
  review_proposals = true;
  proposal_count = 3;
  completed_units = 0;
  failed_units = 0;
}

abbrev generated : Store
generated =
    (complete encode_output (view generating_job first_unit) (generation reported) 12 generating).0

completes_generation :
    complete encode_output (view generating_job first_unit) (generation reported) 12 generating
    ≡ (generated, ok tt)
unfolding complete holds_live total_count completed_count failed_count update
completes_generation = refl

generation_ends_by_checkpoints_example :
    (after : Job) × (find (job_is 1) generated.jobs ≡ some after)
    × EndsGeneration
        (total_count 1 generating.units)
        (completed_count 1 generating.units)
        (failed_count 1 generating.units)
        after
generation_ends_by_checkpoints_example =
    generation_ends_by_checkpoints encode_output (view generating_job first_unit) reported 12
      generating generated generating-IsConsistent completes_generation

abbrev parsed_version : Version
parsed_version = record {
  document_id = 1;
  document_name = "a.md";
  version_id = 11;
  version_number = 1;
  sha256 = "a";
  parsed = true;
  approval_status = "APPROVED";
  included = true;
}

abbrev broken_version : Version
broken_version = record parsed_version {
  document_id = 2;
  version_id = 12;
  parsed = false;
  included = false;
}

abbrev latest : List Version
latest = parsed_version ∷ broken_version ∷ []

abbrev pinned : IndexSnapshot
pinned = record { source_revision = 4; excluded_version_ids = 12 ∷ []; versions = latest }

builds :
    build_index_snapshot 7 (12 ∷ []) (some (record { source_revision = 4; active = true })) latest
    ≡ ok pinned
unfolding build_index_snapshot sort_ids
builds = refl

index_snapshot_ready_example :
    (pinned.versions ≡ map (mark_included (12 ∷ [])) latest)
    × All (IsReadyVersion (12 ∷ [])) pinned.versions
    × (any_of (λ v. v.included) pinned.versions ≡ true)
index_snapshot_ready_example =
    index_snapshot_ready 7 (12 ∷ []) (some (record { source_revision = 4; active = true })) latest
      pinned builds

abbrev no_generation : UnitKey → JobUnit → Store → Store × Generated
no_generation k u s = (s, proposals 0)

abbrev one_done : GenerationOutput
one_done = record reported { completed_units = 1; proposal_count = 5 }

units_run :
    process_units
      (λ i. 12 + i)
      no_generation
      (λ _. 2)
      (view generating_job first_unit)
      0
      (requirement_key 4 ∷ [])
      reported
      generating
    ≡ (generating, ok one_done)
unfolding process_units begin_generation_unit find holds_live is_unit
units_run = refl

units_counted_once_example :
    (ms : List Mark) × RanAll
      (λ i. 12 + i)
      no_generation
      (λ _. 2)
      (view generating_job first_unit)
      (requirement_key 4 ∷ [])
      generating
      ms
      generating
    × Adds (λ i. 12 + i) no_generation (λ _. 2) reported ms one_done
units_counted_once_example =
    units_counted_once (λ i. 12 + i) no_generation (λ _. 2) (view generating_job first_unit) 0
      (requirement_key 4 ∷ []) reported one_done generating generating units_run

-- The job after its first attempt failed for good, a retry, which starts the attempts over, a second claim,
-- and a cancel: a failure that the first worker reports late is accepted, and ends the job under the second.
abbrev retried_job : Job
retried_job = record first_job {
  revision = 6;
  cancel_requested_at = some 30;
  lease_expires_at = some 40;
}

abbrev late_failure : Store
late_failure =
    (fail first_claim no_answer "" true 60 31 (store_of (retried_job ∷ []) (second_unit ∷ []))).0

late_failure_ends_job : map (λ j. j.status) late_failure.jobs ≡ JobStatus.canceled ∷ []
unfolding fail find fails_claim verdict truncate_error is_cancellation update fails_job set_failed
late_failure_ends_job = refl
