-- ===== src/Workflow/Enqueue.antt =====
-- backend/internal/workflow/repository.go: `ExistingByKey`, `activeOperation` and `enqueue`.
use Prim.Native.String.{String, len}
use ai_test_assistant.Prelude.{
  ℕ, ◌+◌, Bool, true, false, not, ◌&&◌, ◌||◌, Option, none, some, List, [], ◌∷◌, ◌++◌, ◌==◌, ◌=s◌,
  ltb, length, any_of, count_p, if◌then◌else◌, update, find, Result, ok, err, ◌>>=◌, ◌>>◌, require,
  transaction,
}
use ai_test_assistant.Workflow.Model.{
  Operation, generate_testcases, Job, JobUnit, JobView, Store, queued, UnitStatus, UnitKey,
  operation_key, native, requirement_extraction, ExtractionJob, Error, invalid_input,
  idempotency_conflict, operation_active,
}
use ai_test_assistant.Workflow.Rows.{same_operation, is_active, active_unique}
use ai_test_assistant.Workflow.Control.{get}
use ai_test_assistant.Workflow.Generation.{Pin, generation_keys}

-- The arguments of `enqueue`, of which `delegate` is the extraction job of `EnqueueDelegated`.
pub record Request : Type 0 where
  pub set_id : ℕ
  pub operation : Operation
  pub requested_by : String
  pub idempotency_key : String
  pub snapshot : String
  pub input_hash : String
  pub max_attempts : ℕ
  pub delegate : Option ℕ

unfoldable pub has_key : ℕ → String → Job → Bool
has_key set_id key j = j.set_id == set_id && (j.idempotency_key =s key)

-- `ExistingByKey`: the job of a key, loaded by `Get`.
unfoldable pub existing_by_key : ℕ → String → ℕ → Store → Store × Result Error (Option JobView)
unfolding has_key get
existing_by_key set_id key now s = elim (find (has_key set_id key) s.jobs) [
  | none ↦ (s, ok none)
  | some j ↦ (let (t, r) = get j.id now s in (t, r >>= λ v. ok (some v)))
]

unfoldable pub is_active_operation : ℕ → Operation → Job → Bool
is_active_operation set_id op j =
    j.set_id == set_id && (same_operation j.operation op && is_active j.status)

-- `activeOperation` answers an error where `Get` does; its caller reads it as no active job.
unfoldable pub active_of : Store × Result Error JobView → Store × Option JobView
active_of (s, ok v) = (s, some v)
active_of (s, err e) = (s, none)

-- `activeOperation`. The unique index leaves one such row at most, so `ORDER BY id DESC` has no choice.
unfoldable pub active_operation : ℕ → Operation → ℕ → Store → Store × Option JobView
unfolding is_active_operation get active_of
active_operation set_id op now s = elim (find (is_active_operation set_id op) s.jobs) [
  | none ↦ (s, none)
  | some j ↦ active_of (get j.id now s)
]

-- The row that `INSERT INTO document_workflow_jobs` adds, with the columns' defaults.
unfoldable pub new_job : Request → ℕ → ℕ → Job
new_job q id now = record {
  id = id;
  set_id = q.set_id;
  operation = q.operation;
  status = queued;
  revision = 1;
  input_snapshot = q.snapshot;
  input_hash = q.input_hash;
  requested_by = q.requested_by;
  idempotency_key = q.idempotency_key;
  total_units = 1;
  completed_units = 0;
  failed_units = 0;
  attempt_count = 0;
  max_attempts = q.max_attempts;
  next_attempt_at = now;
  lease_expires_at = none;
  heartbeat_at = none;
  cancel_requested_at = none;
  error_code = "";
  error_message = "";
  retryable = false;
  output_refs = "{}";
  delegate_kind = elim q.delegate [ none ↦ native | some _ ↦ requirement_extraction ];
  delegate_job_id = q.delegate;
  created_at = now;
  started_at = none;
  finished_at = none;
  updated_at = now;
}

unfoldable pub new_unit : ℕ → ℕ → UnitKey → String → ℕ → JobUnit
new_unit id job_id key hash now = record {
  id = id;
  workflow_job_id = job_id;
  unit_key = key;
  input_hash = hash;
  status = UnitStatus.queued;
  attempt_count = 0;
  output_ref = "{}";
  error_code = "";
  error_message = "";
  started_at = none;
  finished_at = none;
  updated_at = now;
}

-- The generation units, with ids from the sequence.
unfoldable pub new_units : ℕ → ℕ → String → ℕ → List UnitKey → List JobUnit
unfolding new_unit
new_units id job_id hash now [] = []
new_units id job_id hash now (k ∷ ks) =
    new_unit id job_id k hash now ∷ new_units (id + 1) job_id hash now ks

unfoldable pub points_to : ℕ → ℕ → ExtractionJob → Bool
points_to id set_id x = x.id == id && x.set_id == set_id

unfoldable pub set_linked : ℕ → ℕ → ExtractionJob → ExtractionJob
set_linked job_id unit_id x = record x {
  workflow_job_id = some job_id;
  workflow_unit_id = some unit_id;
}

-- `delegateJobID != nil`: the extraction job must exist in the set, and is linked.
unfoldable pub link_delegate :
    Option ℕ → ℕ → ℕ → ℕ → List ExtractionJob → Result Error (List ExtractionJob)
unfolding points_to
link_delegate none set_id job_id unit_id xs = ok xs
link_delegate (some x) set_id job_id unit_id xs = do
  require (count_p (points_to x set_id) xs == 1) invalid_input
  ok (update (points_to x set_id) (set_linked job_id unit_id) xs)

-- The units that a generation with per-requirement units gets, by its decoded snapshot.
unfoldable pub pinned_keys : Operation → Option Pin → List UnitKey
pinned_keys generate_testcases (some pin) =
    if pin.per_requirement_units then generation_keys pin else []
pinned_keys _ _ = []

unfoldable pub has_pinned_units : Operation → Option Pin → Bool
has_pinned_units generate_testcases (some pin) = pin.per_requirement_units
has_pinned_units _ _ = false

-- The guard of `enqueue`; `blank` is `strings.TrimSpace(s) == ""`.
unfoldable pub is_valid_request : (String → Bool) → Request → Bool
is_valid_request blank q = not (
    q.set_id == 0
    || (blank q.requested_by
        || (blank q.idempotency_key
            || (ltb 200 (len q.idempotency_key)
                || (len q.snapshot == 0
                    || (not (len q.input_hash == 64)
                        || (ltb q.max_attempts 1 || ltb 20 q.max_attempts)))))))

-- The statements after the first insert.
unfoldable pub insert_rest : Option Pin → Request → ℕ → Store → Result Error (Store × Unit {0})
unfolding new_job new_unit link_delegate pinned_keys has_pinned_units
insert_rest pin q now s = do
  let job_id = s.next_job_id
  let keys = pinned_keys q.operation pin
  let row : Job = new_job q job_id now
  let job : Job =
      if has_pinned_units q.operation pin then record row { total_units = length keys } else row
  extractions ← link_delegate q.delegate q.set_id job_id s.next_unit_id s.extractions
  ok (
    record s {
      jobs = s.jobs ++ job ∷ [];
      units =
          s.units
          ++ (new_unit s.next_unit_id job_id operation_key q.input_hash now
              ∷ new_units (s.next_unit_id + 1) job_id q.input_hash now keys);
      extractions = extractions;
      next_job_id = job_id + 1;
      next_unit_id = s.next_unit_id + 1 + length keys;
    },
    tt,
  )

-- The first insert breaks a unique index: the key's, or the active operation's.
unfoldable pub insert_clashes : Request → ℕ → Store → Bool
unfolding has_key active_unique
insert_clashes q now s =
    any_of (has_key q.set_id q.idempotency_key) s.jobs
    || not (active_unique (s.jobs ++ new_job q s.next_job_id now ∷ []))

-- What a job found by its key answers to the request: itself, or a conflict.
unfoldable pub same_command : Request → JobView → Result Error (JobView × Bool)
same_command q v =
    if not (v.job.input_hash =s q.input_hash) || not (same_operation v.job.operation q.operation)
    then err idempotency_conflict
    else ok (v, false)

-- The answer of `activeOperation` on a clash: the same input shares the job.
unfoldable pub share_active :
    Request → Store × Option JobView → Store × Result Error (JobView × Bool)
share_active q (s, none) = (s, err operation_active)
share_active q (s, some v) =
    if v.job.input_hash =s q.input_hash then (s, ok (v, false)) else (s, err operation_active)

-- The branch on error 23505.
unfoldable pub after_clash :
    Request → ℕ → Store × Result Error (Option JobView) → Store × Result Error (JobView × Bool)
unfolding active_operation share_active same_command
after_clash q now (s, err e) = (s, err e)
after_clash q now (s, ok (some v)) = (s, same_command q v)
after_clash q now (s, ok none) = share_active q (active_operation q.set_id q.operation now s)

-- The last lines of `enqueue`: the new job, loaded by `Get`.
unfoldable pub then_load :
    ℕ → ℕ → Store × Result Error (Unit {0}) → Store × Result Error (JobView × Bool)
unfolding get
then_load id now (s, err e) = (s, err e)
then_load id now (s, ok _) = let (t, r) = get id now s in (t, r >>= λ v. ok (v, true))

-- `enqueue` behind its guard, from the answer of its first `ExistingByKey`.
unfoldable pub enqueue_after :
    Option Pin
    → Request
    → ℕ
    → Store × Result Error (Option JobView)
    → Store × Result Error (JobView × Bool)
unfolding same_command insert_clashes after_clash existing_by_key insert_rest then_load
enqueue_after pin q now (s, err e) = (s, err e)
enqueue_after pin q now (s, ok (some v)) = (s, same_command q v)
enqueue_after pin q now (s, ok none) =
    if insert_clashes q now s
    then after_clash q now (existing_by_key q.set_id q.idempotency_key now s)
    else then_load s.next_job_id now (transaction s (insert_rest pin q now s))

-- `enqueue`; `decode` is `json.Unmarshal` of a snapshot.
unfoldable pub enqueue :
    (String → Bool)
    → (String → Option Pin)
    → Request
    → ℕ
    → Store
    → Store × Result Error (JobView × Bool)
unfolding is_valid_request existing_by_key enqueue_after
enqueue blank decode q now s =
    if is_valid_request blank q
    then enqueue_after (decode q.snapshot) q now (existing_by_key q.set_id q.idempotency_key now s)
    else (s, err invalid_input)
