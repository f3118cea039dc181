-- ===== src/Workflow/CommandCases.antt =====
-- The stores that the user's commands of the workflow repository can leave behind, as in Cases.
use Prim.Native.String.{String}
use ai_test_assistant.Prelude.{
  ℕ, ◌+◌, ◌≡◌, Bool, true, false, Option, none, some, List, ◌∷◌, [], ◌++◌, arith, update, find, ok,
  err, Result, Option-cases, Bool-cases, Result-cases, length, inl, inr, ◌==◌, ◌&&◌, ◌||◌,
  transaction, if◌then◌else◌,
}
use ai_test_assistant.Workflow.Model.{
  Operation, Job, JobView, Store, ExtractionJob, UnitKey, operation_key, Error,
}
use ai_test_assistant.Workflow.Rows.{job_is, active_unique, unit_open, is_active, is_retryable}
use ai_test_assistant.Workflow.Generation.{Pin}
use ai_test_assistant.Workflow.Control.{
  delegated, set_reconciled, reconcile_units, reconcile_delegated, get, then_get, at_revision,
  set_extraction_canceled, is_delegate_of, extraction_open, set_unit_canceled, set_canceled, cancel,
  cancel_body, reopened, retry, retry_body,
}
use ai_test_assistant.Workflow.Enqueue.{
  Request, has_key, existing_by_key, active_operation, new_job, new_unit, new_units, link_delegate,
  pinned_keys, has_pinned_units, insert_rest, insert_clashes, share_active, after_clash, then_load,
  enqueue_after, enqueue, active_of, is_valid_request, is_active_operation,
}

-- The store after `Cancel` found its row.
abbrev pub canceled_store : Job → ℕ → ℕ → Store → Store
canceled_store row id now s = record s {
  extractions =
      update (λ x. is_delegate_of row x && extraction_open x.status) (set_extraction_canceled now)
        s.extractions;
  units =
      update (λ u. u.workflow_job_id == id && unit_open u.status) (set_unit_canceled now) s.units;
  jobs = update (job_is id) (set_canceled now) s.jobs;
}

-- The row that `enqueue` inserts, with its number of units.
unfoldable pub inserted_job : Option Pin → Request → ℕ → ℕ → Job
unfolding new_job pinned_keys has_pinned_units
inserted_job pin q id now =
    let keys : List UnitKey = pinned_keys q.operation pin in
    let row : Job = new_job q id now in
    if has_pinned_units q.operation pin then record row { total_units = length keys } else row

-- The store after `enqueue` inserted a job, its units and its link to the extraction job.
abbrev pub inserted_store : Option Pin → Request → ℕ → List ExtractionJob → Store → Store
inserted_store pin q now xs s =
    let keys : List UnitKey = pinned_keys q.operation pin in
    record s {
      jobs = s.jobs ++ inserted_job pin q s.next_job_id now ∷ [];
      units =
          s.units
          ++ (new_unit s.next_unit_id s.next_job_id operation_key q.input_hash now
              ∷ new_units (s.next_unit_id + 1) s.next_job_id q.input_hash now keys);
      extractions = xs;
      next_job_id = s.next_job_id + 1;
      next_unit_id = s.next_unit_id + 1 + length keys;
    }

-- A property of stores that the reconciliation of delegated jobs keeps.
pub record Reconciles {ℓ} (P : Store → Type ℓ) : Type ℓ where
  pub job_row :
      (id now : ℕ) (s : Store) (j : Job) (x : ExtractionJob)
      → P s
      → delegated id s ≡ some (j, x)
      → active_unique (update (job_is id) (set_reconciled x now) s.jobs) ≡ true
      → P (record s { jobs = update (job_is id) (set_reconciled x now) s.jobs })
  pub unit_rows : (id now : ℕ) (s : Store) → P s → P (reconcile_units id now s)

module _ {ℓ} (P : Store → Type ℓ) (keeps : Reconciles P) where
  pub reconcile_delegated_cases :
      (id now : ℕ) (s : Store) → P s → P (reconcile_delegated id now s).0
  unfolding reconcile_delegated
  reconcile_delegated_cases id now s h = elim (Option-cases (delegated id s)) [
    | inl e ↦ ground (arith, keeps.unit_rows id now s h)
    | inr ((j, x), e) ↦
        (let t : Store = record s { jobs = update (job_is id) (set_reconciled x now) s.jobs } in
          elim (Bool-cases (active_unique t.jobs)) [
            | inl u ↦ ground (arith, keeps.unit_rows id now t (keeps.job_row id now s j x h e u))
            | inr u ↦ ground arith
          ])
  ]

  pub get_cases : (id now : ℕ) (s : Store) → P s → P (get id now s).0
  unfolding get
  get_cases id now s h = ground (arith, reconcile_delegated_cases id now s h)

  then_get_cases :
      (id now : ℕ) (r : Store × Result Error (Unit {0})) → P r.0 → P (then_get id now r).0
  unfolding then_get
  then_get_cases id now (s, ok _) h = get_cases id now s h
  then_get_cases id now (s, err e) h = h

  cancel_body_cases :
      (id revision now : ℕ) (s : Store)
      → P s
      → ((row : Job)
          → find (at_revision id revision) s.jobs ≡ some row
          → is_active row.status ≡ true
          → P (canceled_store row id now s))
      → P (transaction s (cancel_body id revision now s)).0
  unfolding cancel_body
  cancel_body_cases id revision now s h canceled =
      elim (Option-cases (find (at_revision id revision) s.jobs)) [
        | inl e ↦ ground arith
        | inr (row, e) ↦ ground (arith, canceled row e)
      ]

  pub cancel_cases :
      (id revision now : ℕ) (s : Store)
      → P s
      → ((row : Job)
          → find (at_revision id revision) s.jobs ≡ some row
          → is_active row.status ≡ true
          → P (canceled_store row id now s))
      → P (cancel id revision now s).0
  unfolding cancel
  cancel_cases id revision now s h canceled = elim (Bool-cases (id == 0 || revision == 0)) [
    | inl e ↦ rw e h
    | inr e ↦ rw e (then_get_cases id now _ (cancel_body_cases id revision now s h canceled))
  ]

  retry_body_cases :
      (id revision now : ℕ) (s : Store)
      → P s
      → ((row : Job)
          → find (at_revision id revision) s.jobs ≡ some row
          → is_retryable row.status ≡ true
          → active_unique (reopened row id now s).jobs ≡ true
          → P (reopened row id now s))
      → P (transaction s (retry_body id revision now s)).0
  unfolding retry_body
  retry_body_cases id revision now s h reopens =
      elim (Option-cases (find (at_revision id revision) s.jobs)) [
        | inl e ↦ ground arith
        | inr (row, e) ↦ ground (arith, reopens row e)
      ]

  pub retry_cases :
      (id revision now : ℕ) (s : Store)
      → P s
      → ((row : Job)
          → find (at_revision id revision) s.jobs ≡ some row
          → is_retryable row.status ≡ true
          → active_unique (reopened row id now s).jobs ≡ true
          → P (reopened row id now s))
      → P (retry id revision now s).0
  unfolding retry
  retry_cases id revision now s h reopens = elim (Bool-cases (id == 0 || revision == 0)) [
    | inl e ↦ rw e h
    | inr e ↦ rw e (then_get_cases id now _ (retry_body_cases id revision now s h reopens))
  ]

  existing_by_key_cases :
      (set_id : ℕ) (key : String) (now : ℕ) (s : Store)
      → P s
      → P (existing_by_key set_id key now s).0
  unfolding existing_by_key
  existing_by_key_cases set_id key now s h =
      elim (Option-cases (find (has_key set_id key) s.jobs)) [
        | inl e ↦ rw (e, existing_by_key) h
        | inr (j, e) ↦ rw (e, existing_by_key) (get_cases j.id now s h)
      ]

  active_of_cases : (r : Store × Result Error JobView) → P r.0 → P (active_of r).0
  unfolding active_of
  active_of_cases (s, ok v) h = h
  active_of_cases (s, err e) h = h

  active_operation_cases :
      (set_id : ℕ) (op : Operation) (now : ℕ) (s : Store)
      → P s
      → P (active_operation set_id op now s).0
  unfolding active_operation
  active_operation_cases set_id op now s h =
      elim (Option-cases (find (is_active_operation set_id op) s.jobs)) [
        | inl e ↦ rw (e, active_operation) h
        | inr (j, e) ↦
            rw (e, active_operation) (active_of_cases (get j.id now s) (get_cases j.id now s h))
      ]

  share_active_cases : (q : Request) (r : Store × Option JobView) → P r.0 → P (share_active q r).0
  unfolding share_active
  share_active_cases q (s, none) h = h
  share_active_cases q (s, some v) h = ground arith

  after_clash_cases :
      (q : Request) (now : ℕ) (r : Store × Result Error (Option JobView))
      → P r.0
      → P (after_clash q now r).0
  unfolding after_clash
  after_clash_cases q now (s, err e) h = h
  after_clash_cases q now (s, ok (some v)) h = h
  after_clash_cases q now (s, ok none) h =
      share_active_cases q _ (active_operation_cases q.set_id q.operation now s h)

  then_load_cases :
      (id now : ℕ) (r : Store × Result Error (Unit {0})) → P r.0 → P (then_load id now r).0
  unfolding then_load
  then_load_cases id now (s, err e) h = h
  then_load_cases id now (s, ok _) h = get_cases id now s h

  insert_rest_cases :
      (pin : Option Pin) (q : Request) (now : ℕ) (s : Store)
      → P s
      → ((xs : List ExtractionJob) → P (inserted_store pin q now xs s))
      → P (transaction s (insert_rest pin q now s)).0
  unfolding insert_rest inserted_job
  insert_rest_cases pin q now s h inserted =
      elim (Result-cases
        (link_delegate q.delegate q.set_id s.next_job_id s.next_unit_id s.extractions)) [
          | inl (xs, e) ↦ ground (arith, inserted xs)
          | inr (x, e) ↦ ground arith
        ]

  enqueue_after_cases :
      (pin : Option Pin) (q : Request) (now : ℕ) (r : Store × Result Error (Option JobView))
      → P r.0
      → ((xs : List ExtractionJob)
          → insert_clashes q now r.0 ≡ false
          → P (inserted_store pin q now xs r.0))
      → P (enqueue_after pin q now r).0
  unfolding enqueue_after
  enqueue_after_cases pin q now (s, err e) h inserted = h
  enqueue_after_cases pin q now (s, ok (some v)) h inserted = h
  enqueue_after_cases pin q now (s, ok none) h inserted =
      elim (Bool-cases (insert_clashes q now s)) [
        | inl e ↦
            rw e
              (after_clash_cases q now _ (existing_by_key_cases q.set_id q.idempotency_key now s h))
        | inr e ↦ rw e (
            then_load_cases s.next_job_id now _
              (insert_rest_cases pin q now s h (λ xs. inserted xs e)))
      ]

  pub enqueue_cases :
      (blank : String → Bool) (decode : String → Option Pin) (q : Request) (now : ℕ) (s : Store)
      → P s
      → ((t : Store) (xs : List ExtractionJob)
          → P t
          → insert_clashes q now t ≡ false
          → P (inserted_store (decode q.snapshot) q now xs t))
      → P (enqueue blank decode q now s).0
  unfolding enqueue
  enqueue_cases blank decode q now s h inserted = elim (Bool-cases (is_valid_request blank q)) [
    | inl e ↦
        (let found = existing_by_key_cases q.set_id q.idempotency_key now s h in
          rw e
            (enqueue_after_cases (decode q.snapshot) q now _ found (λ xs n. inserted _ xs found n)))
    | inr e ↦ rw e h
  ]
