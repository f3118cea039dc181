-- ===== src/Workflow/Ending.antt =====
-- How `Fail` ends an attempt (backend/internal/workflow/repository.go).
use Prim.Native.String.{String}
use ai_test_assistant.Prelude.{
  ℕ, ◌+◌, ◌≤◌, ◌≡◌, ◌≢◌, ◌↔◌, refl, ◌∙◌, Bool, true, not, ◌&&◌, ◌||◌, ◌==◌, ltb, none, some, List,
  update, find, ok, arith, count_p, count_p-and_find, is_some, find-update, find-and, find_sound,
  if◌then◌else◌,
}
use ai_test_assistant.Workflow.Model.{Job, JobView, Store, queued, running, failed, canceled}
use ai_test_assistant.Workflow.Rows.{job_is, is_running}
use ai_test_assistant.Workflow.Errors.{ProcessError, is_cancellation}
use ai_test_assistant.Workflow.Fail.{fail, fails_claim, is_attempt, fails_job, verdict, set_failed}
use ai_test_assistant.Workflow.Cases.{decided, failed_store}
use ai_test_assistant.Workflow.Consistency.{IsConsistent}

-- Why a failed attempt is canceled, and why it is queued again.
abbrev pub ends_canceled : ProcessError → Job → Bool
ends_canceled cause row = is_some row.cancel_requested_at || is_cancellation cause

abbrev pub runs_again : JobView → ProcessError → Bool → Job → Bool
runs_again c cause retryable row =
    not (ends_canceled cause row) && (retryable && ltb c.job.attempt_count c.job.max_attempts)

-- The row of the job after its attempt failed.
abbrev pub EndsAttempt : JobView → ProcessError → Bool → ℕ → ℕ → Job → Job → Type 0
EndsAttempt c cause retryable delay now row after =
    ((after.status ≡ canceled) ↔ (ends_canceled cause row ≡ true))
    × ((after.status ≡ queued) ↔ (runs_again c cause retryable row ≡ true))
    × ((after.status ≡ failed)
        ↔ (not (ends_canceled cause row) && not (runs_again c cause retryable row) ≡ true))
    × (after.status ≢ running)
    × (after.lease_expires_at ≡ none)
    × (after.revision ≡ row.revision + 1)
    × (after.next_attempt_at
        ≡ (if runs_again c cause retryable row then now + delay else row.next_attempt_at))
    × (is_some after.finished_at ≡ not (runs_again c cause retryable row))

decided_row :
    (c : JobView) (cause : ProcessError) (code : String) (retryable : Bool) (message : String)
    (delay now : ℕ) (row : Job)
    → EndsAttempt c cause retryable delay now row
        (set_failed (decided c cause code retryable row) message delay now row)
unfolding set_failed verdict
decided_row c cause code retryable message delay now row = ground arith

written_row :
    (c : JobView) (f : Job → Job) (js : List Job) (row : Job)
    → ((j : Job) → (f j).id ≡ j.id)
    → count_p (job_is c.job.id) js ≤ 1
    → find (fails_claim c) js ≡ some row
    → is_running row.status ≡ true
    → (count_p (fails_job c) js ≡ 1)
      × (find (job_is c.job.id) (update (fails_job c) f js) ≡ some (f row))
unfolding fails_claim fails_job is_attempt
written_row c f js row same one e r =
    let found = find-and (job_is c.job.id) (is_attempt c) js row one e in
    let sound = find_sound (fails_claim c) js row e in
    let counted =
      count_p-and_find (job_is c.job.id)
        (λ j. is_running j.status && j.attempt_count == c.job.attempt_count) js row one found in
    (
      ground (arith, counted, sound),
      find-update (job_is c.job.id) (fails_job c) f js (λ j. ground (arith, same j))
          ∙ (rw found (ground (arith, sound))),
    )

-- `Fail` by an attempt that still holds its running job ends that attempt: the job is CANCELED if a
-- cancel was requested or the cause is one, QUEUED again after the delay if the error is retryable
-- and attempts are left, and FAILED otherwise; the lease is gone, the revision rises by one, and
-- finished_at is set unless the job runs again. The error text must be one that the database takes.
pub fail-EndsAttempt :
    (c : JobView) (cause : ProcessError) (code : String) (retryable : Bool) (delay now : ℕ)
    (s : Store) (row : Job) (message : String)
    → IsConsistent s
    → find (fails_claim c) s.jobs ≡ some row
    → is_running row.status ≡ true
    → (decided c cause code retryable row).message ≡ some message
    → (t : Store) × (after : Job) × (fail c cause code retryable delay now s ≡ (t, ok tt))
      × (find (job_is c.job.id) t.jobs ≡ some after)
      × EndsAttempt c cause retryable delay now row after
unfolding fail set_failed
fail-EndsAttempt c cause code retryable delay now s row message h e r m =
    let v = decided c cause code retryable row in
    let w =
      written_row c (set_failed v message delay now) s.jobs row (λ j. refl) (h.one_job c.job.id) e
        r in
    (
      failed_store c v message delay now s,
      set_failed v message delay now row,
      rw (e, r, m, w.0) refl,
      w.1,
      decided_row c cause code retryable message delay now row,
    )
