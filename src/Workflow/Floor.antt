-- ===== src/Workflow/Floor.antt =====
-- Floors of two counters: the attempt of a native job's 'operation' unit, and a job's revision.
use Prim.Native.String.{String}
use ai_test_assistant.Prelude.{
  ℕ, ◌+◌, ◌≤◌, ◌<◌, ◌≡◌, ◌≢◌, refl, Bool, true, false, not, ◌&&◌, Option, some, List, [], ◌∷◌, All,
  All-append, All-update, All-find, update, find, arith, find_sound, Option-cases, inl, inr,
}
use ai_test_assistant.Workflow.Model.{Job, JobUnit, Store, ExtractionJob, UnitKey}
use ai_test_assistant.Workflow.Rows.{job_is, is_native, is_operation_unit}
use ai_test_assistant.Workflow.Claim.{
  sweep, set_exhausted, set_unit_exhausted, set_claimed, set_unit_claimed, set_renewed,
}
use ai_test_assistant.Workflow.Finish.{
  set_unit_completed, set_completed, set_unit_generated, set_generated,
}
use ai_test_assistant.Workflow.Fail.{set_unit_failed, set_failed}
use ai_test_assistant.Workflow.Generation.{
  Pin, set_unit_begun, set_unit_broken, set_unit_published, publish_unit,
}
use ai_test_assistant.Workflow.Control.{
  set_reconciled, reconcile_units, set_unit_canceled, set_canceled, set_unit_reopened, set_reopened,
  reopened,
}
use ai_test_assistant.Workflow.Enqueue.{Request, insert_clashes, new_unit, new_units, pinned_keys}
use ai_test_assistant.Workflow.CommandCases.{Reconciles, inserted_job, inserted_store}
use ai_test_assistant.Workflow.Consistency.{
  IsConsistent, consistent, sweep-IsConsistent, inserted_id, reconcile_units-rest,
}
use ai_test_assistant.Workflow.Step.{Preserved}

-- A row of the native job `id` has at least the revision `r`.
abbrev pub JobFloor : ℕ → ℕ → Job → Type 0
JobFloor id r j = job_is id j ≡ true → (is_native j.delegate_kind ≡ true) × (r ≤ j.revision)

-- An 'operation' unit of the job `id` has at least the attempt `a`.
abbrev pub UnitFloor : ℕ → ℕ → JobUnit → Type 0
UnitFloor id a u = is_operation_unit id u ≡ true → a ≤ u.attempt_count

pub record Floor (id a r : ℕ) (s : Store) : Type 0 where
  pub keys : IsConsistent s
  pub known : id < s.next_job_id
  pub rows : All (JobFloor id r) s.jobs
  pub attempts : All (UnitFloor id a) s.units

-- What a statement may do to a job row, and to a unit row.
abbrev Raises : (Job → Job) → Type 0
Raises f =
    (j : Job)
    → ((f j).id ≡ j.id) × ((f j).delegate_kind ≡ j.delegate_kind) × (j.revision ≤ (f j).revision)

abbrev RaisesUnit : (JobUnit → JobUnit) → Type 0
RaisesUnit f =
    (u : JobUnit)
    → ((f u).workflow_job_id ≡ u.workflow_job_id)
      × ((f u).unit_key ≡ u.unit_key)
      × (u.attempt_count ≤ (f u).attempt_count)

module _ (id a r : ℕ) where
  update_rows :
      (p : Job → Bool) (f : Job → Job) (js : List Job)
      → Raises f
      → All (JobFloor id r) js
      → All (JobFloor id r) (update p f js)
  update_rows p f js k h = All-update (JobFloor id r) p f js (λ j l. ground (arith, k j)) h

  update_attempts :
      (p : JobUnit → Bool) (f : JobUnit → JobUnit) (us : List JobUnit)
      → RaisesUnit f
      → All (UnitFloor id a) us
      → All (UnitFloor id a) (update p f us)
  update_attempts p f us k h = All-update (UnitFloor id a) p f us (λ u l. ground (arith, k u)) h

  -- Only the other tables and columns change besides.
  with_rows :
      (s t : Store)
      → Floor id a r s
      → IsConsistent t
      → t.next_job_id ≡ s.next_job_id
      → All (JobFloor id r) t.jobs
      → All (UnitFloor id a) t.units
      → Floor id a r t
  with_rows s t h keys same rows attempts = record {
    keys = keys;
    known = rw same h.known;
    rows = rows;
    attempts = attempts;
  }

  pub sweep-Floor : (now : ℕ) (s : Store) → Floor id a r s → Floor id a r (sweep now s)
  unfolding sweep set_exhausted set_unit_exhausted
  sweep-Floor now s h =
      with_rows s _ h
        (unfold sweep set_exhausted set_unit_exhausted in sweep-IsConsistent now s h.keys) refl
        (update_rows _ _ s.jobs (λ j. (refl, refl, omega arith)) h.rows)
        (update_attempts _ _ s.units (λ u. (refl, refl, omega arith)) h.attempts)

  -- The row that the reconciliation works on is not the native job's.
  foreign :
      (i : ℕ) (s : Store) (j : Job)
      → Floor id a r s
      → find (λ k. job_is i k && not (is_native k.delegate_kind)) s.jobs ≡ some j
      → i ≢ id
  foreign i s j h e same =
      let found = find_sound (λ k. job_is i k && not (is_native k.delegate_kind)) s.jobs j e in
      let row = All-find (JobFloor id r) _ s.jobs j h.rows e in absurd (ground (arith, found, row))

  -- The reconciliation writes only the units of a delegated job.
  reconciled_units :
      (i now : ℕ) (s : Store)
      → Floor id a r s
      → All (UnitFloor id a) (reconcile_units i now s).units
  unfolding reconcile_units
  reconciled_units i now s h =
      elim (Option-cases (find (λ j. job_is i j && not (is_native j.delegate_kind)) s.jobs)) [
        | inl e ↦ rw (e, reconcile_units) h.attempts
        | inr (j, e) ↦
            rw (e, reconcile_units)
              (All-update (UnitFloor id a) _ _ s.units (λ u l. ground (arith, foreign i s j h e))
                h.attempts)
      ]

  reconcile-Floor : Reconciles (Floor id a r)
  unfolding set_reconciled
  reconcile-Floor = record {
    job_row = λ i now s j x h e u.
        with_rows s _ h (consistent.on_reconcile.job_row i now s j x h.keys e u) refl
          (update_rows (job_is i) _ s.jobs (λ k. (refl, refl, ground arith)) h.rows) h.attempts;
    unit_rows = λ i now s h.
        with_rows s _ h (consistent.on_reconcile.unit_rows i now s h.keys)
          (reconcile_units-rest i now s).1 (rw ((reconcile_units-rest i now s).0) h.rows)
          (reconciled_units i now s h);
  }

  new_units_floor :
      (first job_id : ℕ) (hash : String) (now : ℕ) (ks : List UnitKey)
      → id < job_id
      → All (UnitFloor id a) (new_units first job_id hash now ks)
  unfolding new_units
  new_units_floor first job_id hash now [] h = tt
  new_units_floor first job_id hash now (k ∷ ks) h =
      (λ e. absurd (ground arith), new_units_floor (first + 1) job_id hash now ks h)

  inserted-Floor :
      (pin : Option Pin) (q : Request) (now : ℕ) (s : Store) (xs : List ExtractionJob)
      → Floor id a r s
      → insert_clashes q now s ≡ false
      → Floor id a r (inserted_store pin q now xs s)
  unfolding new_unit
  inserted-Floor pin q now s xs h e = record {
    keys = consistent.on_insert pin q now s xs h.keys e;
    known = omega (arith, h.known);
    rows =
        All-append (JobFloor id r) s.jobs (inserted_job pin q s.next_job_id now ∷ []) h.rows
          (λ t. absurd (ground (arith, h.known, inserted_id pin q s.next_job_id now)), tt);
    attempts = All-append (UnitFloor id a) s.units _ h.attempts (
      λ t. absurd (ground (arith, h.known)),
      new_units_floor (s.next_unit_id + 1) s.next_job_id q.input_hash now
          (pinned_keys q.operation pin) h.known,
    );
  }

  -- Neither counter of a native job goes back, whatever happens.
  pub floor : Preserved (Floor id a r)
  unfolding set_claimed set_unit_claimed set_renewed set_completed set_unit_completed set_generated
      set_unit_generated set_failed set_unit_failed set_unit_begun set_unit_broken publish_unit
      set_unit_published set_canceled set_unit_canceled reopened set_reopened set_unit_reopened
  floor = record {
    on_claim = λ lease now s c h e.
        let w = sweep-Floor now s h in
        with_rows (sweep now s) _ w (consistent.on_claim lease now s c h.keys e) refl
          (update_rows _ _ (sweep now s).jobs (λ j. (refl, refl, omega arith)) w.rows)
          (update_attempts _ _ (sweep now s).units (λ u. (refl, refl, omega arith)) w.attempts);
    on_beat = λ c lease now s h.
        with_rows s _ h (consistent.on_beat c lease now s h.keys) refl
          (update_rows _ _ s.jobs (λ j. (refl, refl, omega arith)) h.rows) h.attempts;
    on_complete = λ c output now s h.
        with_rows s _ h (consistent.on_complete c output now s h.keys) refl
          (update_rows _ _ s.jobs (λ j. (refl, refl, omega arith)) h.rows)
          (update_attempts _ _ s.units (λ u. (refl, refl, omega arith)) h.attempts);
    on_generated = λ c completed failures output now s h e.
        with_rows s _ h (consistent.on_generated c completed failures output now s h.keys e) refl
          (update_rows _ _ s.jobs (λ j. (refl, refl, omega arith)) h.rows)
          (update_attempts _ _ s.units (λ u. (refl, refl, omega arith)) h.attempts);
    on_fail = λ c cause code retryable delay now s row message h e.
        with_rows s _ h (consistent.on_fail c cause code retryable delay now s row message h.keys e)
          refl (update_rows _ _ s.jobs (λ j. (refl, refl, omega arith)) h.rows)
          (update_attempts _ _ s.units (λ u. (refl, refl, omega arith)) h.attempts);
    on_begin = λ i now s h.
        with_rows s _ h (consistent.on_begin i now s h.keys) refl h.rows
          (update_attempts _ _ s.units (λ u. (refl, refl, omega arith)) h.attempts);
    on_break = λ i unit_id failures code message now s h.
        with_rows s _ h (consistent.on_break i unit_id failures code message now s h.keys) refl
          (update_rows _ _ s.jobs (λ j. (refl, refl, omega arith)) h.rows)
          (update_attempts _ _ s.units (λ u. (refl, refl, omega arith)) h.attempts);
    on_publish = λ i unit_id output now s h.
        with_rows s _ h (consistent.on_publish i unit_id output now s h.keys) refl
          (update_rows _ _ s.jobs (λ j. (refl, refl, omega arith)) h.rows)
          (update_attempts _ _ s.units (λ u. (refl, refl, omega arith)) h.attempts);
    on_reconcile = reconcile-Floor;
    on_cancel = λ i revision now s row h e m.
        with_rows s _ h (consistent.on_cancel i revision now s row h.keys e m) refl
          (update_rows _ _ s.jobs (λ j. (refl, refl, omega arith)) h.rows)
          (update_attempts _ _ s.units (λ u. (refl, refl, omega arith)) h.attempts);
    on_retry = λ i revision now s row h e m.
        with_rows s _ h (consistent.on_retry i revision now s row h.keys e m) refl
          (update_rows _ _ s.jobs (λ j. (refl, refl, omega arith)) h.rows)
          (update_attempts _ _ s.units (λ u. (refl, refl, omega arith)) h.attempts);
    on_insert = λ pin q now s xs h e. inserted-Floor pin q now s xs h e;
    on_extract =
        λ s xs h. with_rows s _ h (consistent.on_extract s xs h.keys) refl h.rows h.attempts;
  }
