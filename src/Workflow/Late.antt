-- ===== src/Workflow/Late.antt =====
-- What `Fail` makes of a failure that is reported after a cancel, or by a claim that lost its job
-- (backend/internal/workflow/repository.go).
use Prim.Native.String.{String}
use ai_test_assistant.Prelude.{
  ℕ, ◌≡◌, refl, ◌⊎◌, inl, inr, Bool, true, some, find, is_some, ok, err, arith, Bool-cases,
  Option-cases, find-and,
}
use ai_test_assistant.Workflow.Model.{Job, JobView, Store, canceled, lease_lost}
use ai_test_assistant.Workflow.Rows.{job_is, is_running}
use ai_test_assistant.Workflow.Errors.{ProcessError}
use ai_test_assistant.Workflow.Fail.{fail, fails_claim, is_attempt, verdict}
use ai_test_assistant.Workflow.Consistency.{IsConsistent}
use ai_test_assistant.Workflow.Cases.{decided}
use ai_test_assistant.Workflow.Ending.{fail-EndsAttempt}

-- `Fail` of the claim is refused without a change, or the job has a cancel request and is CANCELED by it.
abbrev pub FailsLate : JobView → Store → ProcessError → String → Bool → ℕ → ℕ → Type 0
FailsLate c s cause code retryable delay now =
    (fail c cause code retryable delay now s ≡ (s, err lease_lost))
    ⊎ ((row : Job) × (t : Store) × (after : Job) × (find (job_is c.job.id) s.jobs ≡ some row)
        × (is_some row.cancel_requested_at ≡ true)
        × (fail c cause code retryable delay now s ≡ (t, ok tt))
        × (find (job_is c.job.id) t.jobs ≡ some after)
        × (after.status ≡ canceled))

decided_canceled :
    (c : JobView) (cause : ProcessError) (code : String) (retryable : Bool) (row : Job)
    → is_some row.cancel_requested_at ≡ true
    → (decided c cause code retryable row).message ≡ some "workflow canceled by user"
unfolding verdict
decided_canceled c cause code retryable row h = rw h refl

-- A claim whose row, if `Fail` finds one, has a cancel request.
pub fail-FailsLate :
    (c : JobView) (cause : ProcessError) (code : String) (retryable : Bool) (delay now : ℕ)
    (s : Store)
    → IsConsistent s
    → ((row : Job)
        → find (fails_claim c) s.jobs ≡ some row
        → is_some row.cancel_requested_at ≡ true)
    → FailsLate c s cause code retryable delay now
unfolding fail fails_claim
fail-FailsLate c cause code retryable delay now s h asked =
    elim (Option-cases (find (fails_claim c) s.jobs)) [
      | inl e ↦ inl (rw e refl)
      | inr (row, e) ↦ elim (Bool-cases (is_running row.status)) [
        | inr r ↦ inl (rw (e, r) refl)
        | inl r ↦
            let (t, after, done, found, ends) =
              fail-EndsAttempt c cause code retryable delay now s row "workflow canceled by user" h
                e r (decided_canceled c cause code retryable row (asked row e)) in
            inr (
              row,
              t,
              after,
              find-and (job_is c.job.id) (is_attempt c) s.jobs row (h.one_job c.job.id) e,
              asked row e,
              done,
              found,
              ends.0.1 (ground (arith, asked row e)),
            )
      ]
    ]
