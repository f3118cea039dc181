-- ===== src/Workflow/Worker.antt =====
-- backend/internal/workflow/worker.go: one iteration of the worker.
use Prim.Native.String.{String, ◌++◌}
use ai_test_assistant.Prelude.{
  ℕ, Bool, true, false, Option, none, some, ◌==◌, length, if◌then◌else◌, Result, ok, err,
}
use ai_test_assistant.Workflow.Model.{
  JobView, Store, Error, not_found, invalid_input, canceled_error, input_stale,
}
use ai_test_assistant.Workflow.Errors.{
  ProcessError, Sentinel, workflow_canceled, join, classify_error,
}
use ai_test_assistant.Workflow.Errors
use ai_test_assistant.Workflow.Finish.{Output, GenerationOutput, complete}
use ai_test_assistant.Workflow.Fail.{fail}
use ai_test_assistant.Workflow.Claim.{claim_next}

-- The options of a worker that an iteration uses; durations are numbers.
pub record Options : Type 0 where
  pub lease : ℕ
  pub retry_delay : ℕ

-- What a processor and the lease renewal beside it return.
pub record Outcome : Type 0 where
  pub output : Output
  pub process_error : Option ProcessError
  pub renewal_error : Option ProcessError

-- `errors.Join`, which drops nil errors.
unfoldable pub join_errors : Option ProcessError → Option ProcessError → Option ProcessError
join_errors none none = none
join_errors none (some e) = some e
join_errors (some e) none = some e
join_errors (some e) (some f) = some (join e f)

-- The sentinel that an error of the repository is, for `errors.Is`.
unfoldable pub error_wraps : Error → Sentinel → Bool
error_wraps canceled_error workflow_canceled = true
error_wraps input_stale Errors.input_stale = true
error_wraps _ _ = false

-- The work that stands between a claim and its end: the processor with the lease renewal beside it, and
-- whatever other clients do to the store meanwhile.
abbrev pub Process : Type 0
Process = JobView → Store → Store × Outcome

-- `text` gives an error's text, the driver's for an error of the database.
module _ (encode : GenerationOutput → String) (text : Error → String) where
  unfoldable pub as_error : Error → ProcessError
  unfolding error_wraps
  as_error e = record { text = text e; wraps = error_wraps e }

  -- `fmt.Errorf("complete document workflow job: %w", completeErr)`.
  unfoldable pub complete_error : Error → ProcessError
  unfolding error_wraps
  complete_error e = record {
    text = "complete document workflow job: " ++ text e;
    wraps = error_wraps e;
  }

  -- The end of a failed iteration: the error that it returns, joined with that of `Fail`.
  unfoldable pub persist_failure :
      Options → JobView → Option ProcessError → ℕ → Store → Store × Option ProcessError
  unfolding join_errors as_error
  persist_failure o c none now s = (s, none)
  persist_failure o c (some e) now s =
      let (code, retryable) = classify_error e in
      let (t, r) = fail c e code retryable o.retry_delay now s in
      (t, elim r [ ok _ ↦ some e | err f ↦ join_errors (some e) (some (as_error f)) ])

  -- The answer of `Complete`: done, or an error that goes to `Fail`.
  unfoldable pub after_complete :
      Options → JobView → ℕ → Store × Result Error (Unit {0}) → Store × Option ProcessError
  unfolding persist_failure complete_error
  after_complete o c now (s, ok _) = (s, none)
  after_complete o c now (s, err e) = persist_failure o c (some (complete_error e)) now s

  -- The end of an iteration: `Complete` when nothing failed, and `Fail` otherwise.
  unfoldable pub finish : Options → JobView → Outcome → ℕ → Store → Store × Option ProcessError
  unfolding after_complete persist_failure join_errors
  finish o c r now s = elim (join_errors r.process_error r.renewal_error) [
    | none ↦ after_complete o c now (complete encode c r.output now s)
    | some e ↦ persist_failure o c (some e) now s
  ]

  -- The iteration from a claim on; `later` is the time at its end.
  unfoldable pub run_claimed :
      Options → Process → ℕ → Store × Result Error JobView → Store × Option ProcessError
  unfolding finish as_error
  run_claimed o process later (s, err not_found) = (s, none)
  run_claimed o process later (s, err e) = (s, some (as_error e))
  run_claimed o process later (s, ok c) =
      if length c.units == 1
      then (let (t, r) = process c s in finish o c r later t)
      else (let (t, r) =
            fail c (as_error invalid_input) "INVALID_JOB_UNITS" false o.retry_delay later s in
          (t, elim r [ ok _ ↦ none | err e ↦ some (as_error e) ]))

  -- `runOnce`, after `AdvanceSources`.
  unfoldable pub run_once : Options → Process → ℕ → ℕ → Store → Store × Option ProcessError
  unfolding run_claimed
  run_once o process now later s = run_claimed o process later (claim_next o.lease now s)
