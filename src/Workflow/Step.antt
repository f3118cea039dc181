-- ===== src/Workflow/Step.antt =====
-- The histories of the workflow tables: every operation of the repository, by any client, at any
-- time and in any order. A transaction is one step, as under row locks.
use Prim.Native.String.{String}
use ai_test_assistant.Prelude.{
  ℕ, ◌≡◌, Bool, true, false, Option, some, List, ◌&&◌, ◌==◌, update, find, any_of,
}
use ai_test_assistant.Workflow.Model.{Job, JobUnit, JobView, Store, ExtractionJob, UnitKey}
use ai_test_assistant.Workflow.Rows.{
  job_is, unit_running, is_operation_unit, is_active, is_retryable,
}
use ai_test_assistant.Workflow.Errors.{ProcessError}
use ai_test_assistant.Workflow.Claim.{
  sweep, first_candidate, claim_next, renews, set_renewed, heartbeat,
}
use ai_test_assistant.Workflow.Finish.{
  Output, GenerationOutput, complete, holds_claim, holds_unit, holds_live, set_unit_completed,
  set_completed, set_unit_generated, set_generated,
}
use ai_test_assistant.Workflow.Fail.{fail, fails_claim}
use ai_test_assistant.Workflow.Generation.{
  Pin, set_unit_begun, begin_generation_unit, set_unit_broken, fail_generation_unit, publish_unit,
}
use ai_test_assistant.Workflow.Control.{get, cancel, retry, reopened, at_revision}
use ai_test_assistant.Workflow.Enqueue.{Request, enqueue, insert_clashes}
use ai_test_assistant.Workflow.Cases.{
  claimed, decided, failed_store, claim_next_cases, heartbeat_cases, complete_cases, fail_cases,
  begin_generation_unit_cases, fail_generation_unit_cases,
}
use ai_test_assistant.Workflow.CommandCases.{
  Reconciles, canceled_store, inserted_store, get_cases, cancel_cases, retry_cases, enqueue_cases,
}

pub data Step (s : Store) : Store → Type 0 where
  claims : (lease now : ℕ) → Step s (claim_next lease now s).0
  beats : (c : JobView) (lease now : ℕ) → Step s (heartbeat c lease now s).0
  completes :
      (encode : GenerationOutput → String) (c : JobView) (out : Output) (now : ℕ)
      → Step s (complete encode c out now s).0
  fails :
      (c : JobView) (cause : ProcessError) (code : String) (retryable : Bool) (delay now : ℕ)
      → Step s (fail c cause code retryable delay now s).0
  begins : (c : JobView) (key : UnitKey) (now : ℕ) → Step s (begin_generation_unit c key now s).0
  breaks :
      (c : JobView) (u : JobUnit) (cause : ProcessError) (now : ℕ)
      → Step s (fail_generation_unit c u cause now s).0
  -- The end of `saveProposals`, here for any unit, of which the code asks that it runs.
  publishes :
      (id : ℕ) (u : JobUnit) (output : String) (now : ℕ)
      → Step s (publish_unit id u.id output now s)
  gets : (id now : ℕ) → Step s (get id now s).0
  cancels : (id revision now : ℕ) → Step s (cancel id revision now s).0
  retries : (id revision now : ℕ) → Step s (retry id revision now s).0
  enqueues :
      (blank : String → Bool) (decode : String → Option Pin) (q : Request) (now : ℕ)
      → Step s (enqueue blank decode q now s).0
  -- The extraction worker changes its own table.
  extracts : (xs : List ExtractionJob) → Step s (record s { extractions = xs })

pub data Reach (s : Store) : Store → Type 0 where
  here : Reach s s
  next : {t u : Store} → Reach s t → Step t u → Reach s u

-- What an invariant has to keep, a statement at a time.
pub record Preserved {ℓ} (P : Store → Type ℓ) : Type ℓ where
  pub on_claim :
      (lease now : ℕ) (s : Store) (c : Job)
      → P s
      → first_candidate now (sweep now s).jobs ≡ some c
      → P (claimed lease now c (sweep now s))
  pub on_beat :
      (c : JobView) (lease now : ℕ) (s : Store)
      → P s
      → P (record s { jobs = update (renews c) (set_renewed lease now) s.jobs })
  pub on_complete :
      (c : JobView) (output : String) (now : ℕ) (s : Store)
      → P s
      → P (record s {
        units = update (holds_unit c s.jobs) (set_unit_completed output now) s.units;
        jobs = update (holds_claim c) (set_completed output now) s.jobs;
      })
  pub on_generated :
      (c : JobView) (completed failures : ℕ) (output : String) (now : ℕ) (s : Store)
      → P s
      → any_of (holds_live c now) s.jobs ≡ true
      → P (record s {
        units =
            update (is_operation_unit c.job.id) (set_unit_generated failures output now) s.units;
        jobs = update (job_is c.job.id) (set_generated completed failures output now) s.jobs;
      })
  pub on_fail :
      (c : JobView) (cause : ProcessError) (code : String) (retryable : Bool) (delay now : ℕ)
      (s : Store) (row : Job) (message : String)
      → P s
      → find (fails_claim c) s.jobs ≡ some row
      → P (failed_store c (decided c cause code retryable row) message delay now s)
  pub on_begin :
      (id now : ℕ) (s : Store)
      → P s
      → P (record s { units = update (λ v. v.id == id) (set_unit_begun now) s.units })
  pub on_break :
      (id unit_id failures : ℕ) (code message : String) (now : ℕ) (s : Store)
      → P s
      → P (record s {
        units =
            update
              (λ v. v.id == unit_id && unit_running v.status)
              (set_unit_broken code message now)
              s.units;
        jobs = update (job_is id) (λ j. record j { failed_units = failures }) s.jobs;
      })
  pub on_publish :
      (id unit_id : ℕ) (output : String) (now : ℕ) (s : Store)
      → P s
      → P (publish_unit id unit_id output now s)
  pub on_reconcile : Reconciles P
  pub on_cancel :
      (id revision now : ℕ) (s : Store) (row : Job)
      → P s
      → find (at_revision id revision) s.jobs ≡ some row
      → is_active row.status ≡ true
      → P (canceled_store row id now s)
  pub on_retry :
      (id revision now : ℕ) (s : Store) (row : Job)
      → P s
      → find (at_revision id revision) s.jobs ≡ some row
      → is_retryable row.status ≡ true
      → P (reopened row id now s)
  pub on_insert :
      (pin : Option Pin) (q : Request) (now : ℕ) (s : Store) (xs : List ExtractionJob)
      → P s
      → insert_clashes q now s ≡ false
      → P (inserted_store pin q now xs s)
  pub on_extract : (s : Store) (xs : List ExtractionJob) → P s → P (record s { extractions = xs })

module _ {ℓ} (P : Store → Type ℓ) (k : Preserved P) where
  -- An invariant of the statements is one of every operation.
  pub Step_keeps : {s t : Store} → Step s t → P s → P t
  Step_keeps {s} (claims lease now) h =
      claim_next_cases P lease now s h (λ c. k.on_claim lease now s c h)
  Step_keeps {s} (beats c lease now) h = heartbeat_cases P c lease now s (k.on_beat c lease now s h)
  Step_keeps {s} (completes encode c out now) h =
      complete_cases P encode c out now s h (λ output. k.on_complete c output now s h)
        (λ completed failures output. k.on_generated c completed failures output now s h)
  Step_keeps {s} (fails c cause code retryable delay now) h =
      fail_cases P c cause code retryable delay now s h
        (λ row message. k.on_fail c cause code retryable delay now s row message h)
  Step_keeps {s} (begins c key now) h =
      begin_generation_unit_cases P c key now s h (λ u e. k.on_begin u.id now s h)
  Step_keeps {s} (breaks c u cause now) h =
      fail_generation_unit_cases P c u cause now s h
        (λ failures code message. k.on_break c.job.id u.id failures code message now s h)
  Step_keeps {s} (publishes id u output now) h = k.on_publish id u.id output now s h
  Step_keeps {s} (gets id now) h = get_cases P k.on_reconcile id now s h
  Step_keeps {s} (cancels id revision now) h =
      cancel_cases P k.on_reconcile id revision now s h (λ row. k.on_cancel id revision now s row h)
  Step_keeps {s} (retries id revision now) h =
      retry_cases P k.on_reconcile id revision now s h
        (λ row found may _. k.on_retry id revision now s row h found may)
  Step_keeps {s} (enqueues blank decode q now) h =
      enqueue_cases P k.on_reconcile blank decode q now s h
        (λ t xs p. k.on_insert (decode q.snapshot) q now t xs p)
  Step_keeps {s} (extracts xs) h = k.on_extract s xs h

  -- So it holds after any history.
  pub Reach_keeps : {s t : Store} → P s → Reach s t → P t
  Reach_keeps h here = h
  Reach_keeps h (next r st) = Step_keeps st (Reach_keeps h r)
