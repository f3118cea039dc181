-- ===== src/Workflow/Lifecycle.antt =====
-- What holds of every job row between two statements, and that each statement on one row keeps it.
use Prim.Native.String.{String}
use ai_test_assistant.Prelude.{ℕ, ◌≤◌, ◌≡◌, Bool, true, false, is_some, apply_if, arith}
use ai_test_assistant.Workflow.Model.{
  Job, JobView, JobStatus, succeeded, partial_failed, is_terminal, ExtractionJob,
}
use ai_test_assistant.Workflow.Rows.{is_native, is_running, is_queued, is_active}
use ai_test_assistant.Workflow.Errors.{ProcessError}
use ai_test_assistant.Workflow.Claim.{
  exhausted, set_exhausted, claimable, set_claimed, renews, set_renewed,
}
use ai_test_assistant.Workflow.Finish.{holds_claim, set_completed, holds_live, set_generated}
use ai_test_assistant.Workflow.Fail.{fails_claim, set_failed, verdict}
use ai_test_assistant.Workflow.Control.{set_canceled, set_reopened, set_reconciled}
use ai_test_assistant.Workflow.Cases.{decided}

-- SUCCEEDED or PARTIAL_FAILED: some result was published.
abbrev pub is_published : JobStatus → Bool
is_published succeeded = true
is_published partial_failed = true
is_published _ = false

-- A delegated row mirrors the extraction job and is not bound by this.
pub record IsValidJob (j : Job) : Type 0 where
  pub bounded : is_native j.delegate_kind ≡ true → j.attempt_count ≤ j.max_attempts
  pub leased : is_native j.delegate_kind ≡ true → is_running j.status ≡ is_some j.lease_expires_at
  pub finished : is_native j.delegate_kind ≡ true → is_terminal j.status ≡ is_some j.finished_at
  pub waiting :
      is_native j.delegate_kind ≡ true
      → is_queued j.status ≡ true
      → is_some j.cancel_requested_at ≡ false
  pub uncanceled :
      is_native j.delegate_kind ≡ true
      → is_published j.status ≡ true
      → is_some j.cancel_requested_at ≡ false

pub exhausted-IsValidJob :
    (now : ℕ) (j : Job) → IsValidJob j → IsValidJob (apply_if (exhausted now) (set_exhausted now) j)
unfolding exhausted set_exhausted is_terminal
exhausted-IsValidJob now j v = ground arith

pub claimed-IsValidJob :
    (lease now : ℕ) (j : Job)
    → claimable now j ≡ true
    → IsValidJob j
    → IsValidJob (set_claimed lease now j)
unfolding claimable set_claimed is_terminal
claimed-IsValidJob lease now j e v = ground arith

pub renewed-IsValidJob :
    (c : JobView) (lease now : ℕ) (j : Job)
    → IsValidJob j
    → IsValidJob (apply_if (renews c) (set_renewed lease now) j)
unfolding renews set_renewed
renewed-IsValidJob c lease now j v = ground arith

pub completed-IsValidJob :
    (c : JobView) (output : String) (now : ℕ) (j : Job)
    → IsValidJob j
    → IsValidJob (apply_if (holds_claim c) (set_completed output now) j)
unfolding holds_claim set_completed is_terminal
completed-IsValidJob c output now j v = ground arith

pub generated-IsValidJob :
    (c : JobView) (completed failures : ℕ) (output : String) (now : ℕ) (j : Job)
    → holds_live c now j ≡ true
    → IsValidJob j
    → IsValidJob (set_generated completed failures output now j)
unfolding holds_live set_generated is_terminal
generated-IsValidJob c completed failures output now j e v = ground arith

pub failed-IsValidJob :
    (c : JobView) (cause : ProcessError) (code : String) (retryable : Bool) (message : String)
    (delay now : ℕ) (j : Job)
    → fails_claim c j ≡ true
    → IsValidJob j
    → IsValidJob (set_failed (decided c cause code retryable j) message delay now j)
unfolding fails_claim set_failed verdict is_terminal
failed-IsValidJob c cause code retryable message delay now j e v = ground arith

pub canceled-IsValidJob :
    (now : ℕ) (j : Job) → is_active j.status ≡ true → IsValidJob j → IsValidJob (set_canceled now j)
unfolding set_canceled is_terminal
canceled-IsValidJob now j e v = ground arith

pub reopened-IsValidJob :
    (p : Job → Bool) (done now : ℕ) (j : Job)
    → IsValidJob j
    → IsValidJob (apply_if p (set_reopened done now) j)
unfolding set_reopened is_terminal
reopened-IsValidJob p done now j v = ground arith

pub reconciled-IsValidJob :
    (x : ExtractionJob) (now : ℕ) (j : Job)
    → is_native j.delegate_kind ≡ false
    → IsValidJob (set_reconciled x now j)
unfolding set_reconciled
reconciled-IsValidJob x now j e = ground arith
