-- ===== src/Workflow/Invariant.antt =====
-- The invariant of the workflow tables: their keys, and what holds of each job row, kept by every
-- operation.
use Prim.Native.String.{String}
use ai_test_assistant.Prelude.{
  ℕ, ◌≡◌, Bool, true, not, ◌&&◌, ◌==◌, Option, some, [], ◌∷◌, All, All-append, All-update,
  All-update_one, update, find, find_sound, find_of_any, any_of, arith, and_left, and_right,
  not-true, inl, inr, Bool-cases,
}
use ai_test_assistant.Workflow.Model.{Job, JobView, Store, ExtractionJob, is_terminal}
use ai_test_assistant.Workflow.Rows.{job_is, is_native, is_active}
use ai_test_assistant.Workflow.Claim.{sweep, claimable, set_claimed, first_candidate}
use ai_test_assistant.Workflow.Finish.{is_live, holds_live, set_generated}
use ai_test_assistant.Workflow.Fail.{fails_claim, fails_job, is_attempt, set_failed}
use ai_test_assistant.Workflow.Errors.{ProcessError}
use ai_test_assistant.Workflow.Cases.{decided}
use ai_test_assistant.Workflow.Generation.{Pin, publish_unit}
use ai_test_assistant.Workflow.Control.{
  at_revision, set_canceled, reopened, delegated, set_reconciled, reconcile_units,
}
use ai_test_assistant.Workflow.Enqueue.{Request, has_pinned_units}
use ai_test_assistant.Workflow.Candidate.{first_candidate_found}
use ai_test_assistant.Workflow.CommandCases.{inserted_job}
use ai_test_assistant.Workflow.Consistency.{
  IsConsistent, sweep-IsConsistent, consistent, reconcile_units-rest,
}
use ai_test_assistant.Workflow.Lifecycle.{
  IsValidJob, exhausted-IsValidJob, claimed-IsValidJob, renewed-IsValidJob, completed-IsValidJob,
  generated-IsValidJob, failed-IsValidJob, canceled-IsValidJob, reopened-IsValidJob,
  reconciled-IsValidJob,
}
use ai_test_assistant.Workflow.Step.{Preserved, Reach, Reach_keeps}

pub record Inv (s : Store) : Type 0 where
  pub keys : IsConsistent s
  pub valid : All IsValidJob s.jobs

-- A statement that reaches only rows with one id is followed on the row that the query found.
on_row :
    (id : ℕ) (r p : Job → Bool) (f : Job → Job) (s : Store) (row : Job)
    → Inv s
    → find (λ j. job_is id j && r j) s.jobs ≡ some row
    → ((j : Job) → p j ≡ true → job_is id j ≡ true)
    → (IsValidJob row → IsValidJob (f row))
    → All IsValidJob (update p f s.jobs)
on_row id r p f s row h found sub keep =
    All-update_one IsValidJob (job_is id) r p f s.jobs row (h.keys.one_job id) found sub keep
      h.valid

sweep-Inv : (now : ℕ) (s : Store) → Inv s → Inv (sweep now s)
unfolding sweep
sweep-Inv now s h = record {
  keys = sweep-IsConsistent now s h.keys;
  valid = All-update IsValidJob _ _ s.jobs (exhausted-IsValidJob now) h.valid;
}

claim-valid :
    (lease now : ℕ) (s : Store) (c : Job)
    → Inv s
    → first_candidate now s.jobs ≡ some c
    → All IsValidJob (update (job_is c.id) (set_claimed lease now) s.jobs)
claim-valid lease now s c h e =
    let found = first_candidate_found now s.jobs c e (h.keys.one_job c.id) in
    on_row c.id (claimable now) (job_is c.id) (set_claimed lease now) s c h found (λ j p. p)
      (claimed-IsValidJob lease now c (and_right _ _ (find_sound _ s.jobs c found)))

inserted_job-IsValidJob :
    (pin : Option Pin) (q : Request) (id now : ℕ) → IsValidJob (inserted_job pin q id now)
unfolding inserted_job is_terminal
inserted_job-IsValidJob pin q id now = elim (Bool-cases (has_pinned_units q.operation pin)) [
  | inl e ↦ rw e (ground arith)
  | inr e ↦ rw e (ground arith)
]

-- The row that `reconcileDelegated` joins is a delegated one.
delegated_row :
    (id : ℕ) (s : Store) (j : Job) (x : ExtractionJob)
    → delegated id s ≡ some (j, x)
    → find (λ k. job_is id k && not (is_native k.delegate_kind)) s.jobs ≡ some j
unfolding delegated
delegated_row id s j x e = ground arith

reconcile-valid :
    (id now : ℕ) (s : Store) (j : Job) (x : ExtractionJob)
    → Inv s
    → delegated id s ≡ some (j, x)
    → All IsValidJob (update (job_is id) (set_reconciled x now) s.jobs)
reconcile-valid id now s j x h e =
    let found = delegated_row id s j x e in
    on_row id (λ k. not (is_native k.delegate_kind)) (job_is id) (set_reconciled x now) s j h found
      (λ k p. p)
      (λ _.
        reconciled-IsValidJob x now j (not-true _ (and_right _ _ (find_sound _ s.jobs j found))))

reconcile_units-Inv : (id now : ℕ) (s : Store) → Inv s → Inv (reconcile_units id now s)
reconcile_units-Inv id now s h = record {
  keys = consistent.on_reconcile.unit_rows id now s h.keys;
  valid = rw ((reconcile_units-rest id now s).0) h.valid;
}

generated-valid :
    (c : JobView) (completed failures : ℕ) (output : String) (now : ℕ) (s : Store)
    → Inv s
    → any_of (holds_live c now) s.jobs ≡ true
    → All IsValidJob (update (job_is c.job.id) (set_generated completed failures output now) s.jobs)
generated-valid c completed failures output now s h e =
    let (row, found) = find_of_any (holds_live c now) s.jobs e in
    on_row c.job.id (is_live c now) (job_is c.job.id) _ s row h (unfold holds_live in found)
      (λ j p. p)
      (generated-IsValidJob c completed failures output now row
        (find_sound (holds_live c now) s.jobs row found))

canceled-valid :
    (id revision now : ℕ) (s : Store) (row : Job)
    → Inv s
    → find (at_revision id revision) s.jobs ≡ some row
    → is_active row.status ≡ true
    → All IsValidJob (update (job_is id) (set_canceled now) s.jobs)
canceled-valid id revision now s row h found active =
    on_row id (λ j. j.revision == revision) (job_is id) (set_canceled now) s row h
      (unfold at_revision in found) (λ j p. p) (canceled-IsValidJob now row active)

failed-valid :
    (c : JobView) (cause : ProcessError) (code : String) (retryable : Bool) (delay now : ℕ)
    (s : Store) (row : Job) (message : String)
    → Inv s
    → find (fails_claim c) s.jobs ≡ some row
    → All IsValidJob (
        update
          (fails_job c)
          (set_failed (decided c cause code retryable row) message delay now)
          s.jobs)
failed-valid c cause code retryable delay now s row message h found =
    on_row c.job.id (is_attempt c) (fails_job c) _ s row h (unfold fails_claim in found)
      (λ j p. unfold fails_job in and_left _ _ p)
      (failed-IsValidJob c cause code retryable message delay now row
        (find_sound (fails_claim c) s.jobs row found))

-- Every statement keeps the invariant.
pub invariant : Preserved Inv
unfolding publish_unit reopened
invariant = record {
  on_claim = λ lease now s c h e. record {
    keys = consistent.on_claim lease now s c h.keys e;
    valid = claim-valid lease now (sweep now s) c (sweep-Inv now s h) e;
  };
  on_beat = λ c lease now s h. record {
    keys = consistent.on_beat c lease now s h.keys;
    valid = All-update IsValidJob _ _ s.jobs (renewed-IsValidJob c lease now) h.valid;
  };
  on_complete = λ c output now s h. record {
    keys = consistent.on_complete c output now s h.keys;
    valid = All-update IsValidJob _ _ s.jobs (completed-IsValidJob c output now) h.valid;
  };
  on_generated = λ c completed failures output now s h e. record {
    keys = consistent.on_generated c completed failures output now s h.keys e;
    valid = generated-valid c completed failures output now s h e;
  };
  on_fail = λ c cause code retryable delay now s row message h e. record {
    keys = consistent.on_fail c cause code retryable delay now s row message h.keys e;
    valid = failed-valid c cause code retryable delay now s row message h e;
  };
  on_begin = λ id now s h. record { keys = consistent.on_begin id now s h.keys; valid = h.valid };
  on_break = λ id unit_id failures code message now s h. record {
    keys = consistent.on_break id unit_id failures code message now s h.keys;
    valid = All-update IsValidJob _ _ s.jobs (λ j v. ground arith) h.valid;
  };
  on_publish = λ id unit_id output now s h. record {
    keys = consistent.on_publish id unit_id output now s h.keys;
    valid = All-update IsValidJob _ _ s.jobs (λ j v. ground arith) h.valid;
  };
  on_reconcile = record {
    job_row = λ id now s j x h e u. record {
      keys = consistent.on_reconcile.job_row id now s j x h.keys e u;
      valid = reconcile-valid id now s j x h e;
    };
    unit_rows = reconcile_units-Inv;
  };
  on_cancel = λ id revision now s row h e a. record {
    keys = consistent.on_cancel id revision now s row h.keys e a;
    valid = canceled-valid id revision now s row h e a;
  };
  on_retry = λ id revision now s row h e a. record {
    keys = consistent.on_retry id revision now s row h.keys e a;
    valid = All-update IsValidJob _ _ s.jobs (reopened-IsValidJob (job_is id) _ now) h.valid;
  };
  on_insert = λ pin q now s xs h e. record {
    keys = consistent.on_insert pin q now s xs h.keys e;
    valid =
        All-append IsValidJob s.jobs (inserted_job pin q s.next_job_id now ∷ []) h.valid
          (inserted_job-IsValidJob pin q s.next_job_id now, tt);
  };
  on_extract = λ s xs h. record { keys = consistent.on_extract s xs h.keys; valid = h.valid };
}

-- Every history of repository calls from a store with the invariant ends in one with it: job ids and
-- 'operation' units are unique, and each native row has no more attempts than allowed, a lease exactly
-- while RUNNING, finished_at exactly in a final status, and no cancel request while QUEUED, SUCCEEDED or
-- PARTIAL_FAILED.
pub Reach-Inv : {s t : Store} → Inv s → Reach s t → Inv t
Reach-Inv h r = Reach_keeps Inv invariant h r
