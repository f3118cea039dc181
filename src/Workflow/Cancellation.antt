-- ===== src/Workflow/Cancellation.antt =====
-- The calls of the worker of a job with a cancel request (backend/internal/workflow/repository.go).
use Prim.Native.String.{String}
use ai_test_assistant.Prelude.{ℕ, ◌≡◌, true, List, All, err, is_some, Result, Bool}
use ai_test_assistant.Workflow.Model.{
  Job, JobView, Store, JobUnit, UnitKey, lease_lost, canceled_error,
}
use ai_test_assistant.Workflow.Rows.{job_is}
use ai_test_assistant.Workflow.Errors.{ProcessError}
use ai_test_assistant.Workflow.Claim.{heartbeat}
use ai_test_assistant.Workflow.Finish.{Output, GenerationOutput, complete}
use ai_test_assistant.Workflow.Generation.{begin_generation_unit, fail_generation_unit}
use ai_test_assistant.Workflow.Proposals.{Baseline, SaveError, save_proposals}
use ai_test_assistant.Workflow.Late.{FailsLate}

-- Each row of the id has been canceled.
abbrev CanceledRows : ℕ → List Job → Type 0
CanceledRows id js = All (λ j. job_is id j ≡ true → is_some j.cancel_requested_at ≡ true) js

-- What the worker of a canceled job gets from the calls that would store its work.
abbrev pub RefusesWork : (GenerationOutput → String) → JobView → Store → Type 0
RefusesWork encode c s =
    ((out : Output) (now : ℕ) → complete encode c out now s ≡ (s, err lease_lost))
    × ((key : UnitKey) (now : ℕ) → begin_generation_unit c key now s ≡ (s, err lease_lost))
    × ((u : JobUnit) (cause : ProcessError) (now : ℕ)
        → fail_generation_unit c u cause now s ≡ (s, err lease_lost))
    × ((lease now : ℕ) → heartbeat c lease now s ≡ (s, err canceled_error))
    × ((stored : ℕ) (written : Result SaveError ℕ) (output : ℕ → String) (b : Baseline) (set_id : ℕ)
          (has_outputs : Bool) (now : ℕ)
        → (e : SaveError) × (save_proposals stored written output
              (record b { workflow_job_id = c.job.id }) set_id has_outputs now s
            ≡ (s, err e)))
    × ((cause : ProcessError) (code : String) (retryable : Bool) (delay now : ℕ)
        → FailsLate c s cause code retryable delay now)
