-- ===== src/Workflow/Cases.antt =====
-- The stores that each operation of the workflow repository can leave behind. A proof about an
-- operation starts from its lemma here.
use Prim.Native.String.{String}
use ai_test_assistant.Prelude.{
  ℕ, ◌≡◌, Bool, true, is_some, some, arith, update, find, Option-cases, any_of, inl, inr, ◌==◌,
  ◌&&◌,
}
use ai_test_assistant.Workflow.Model.{Job, JobUnit, JobView, Store, UnitKey}
use ai_test_assistant.Workflow.Rows.{job_is, is_operation_unit, unit_running}
use ai_test_assistant.Workflow.Errors.{ProcessError, truncate_error, classify_error}
use ai_test_assistant.Workflow.Generation.{
  is_unit, set_unit_begun, begin_generation_unit, set_unit_broken, fail_generation_unit,
}
use ai_test_assistant.Workflow.Claim.{
  sweep, first_candidate, claims_unit, set_claimed, set_unit_claimed, claim_next, renews,
  set_renewed, heartbeat,
}
use ai_test_assistant.Workflow.Finish.{
  Output, GenerationOutput, json, generation, complete, holds_claim, holds_unit, set_unit_completed,
  set_completed, set_unit_generated, set_generated, holds_live, completed_count, failed_count,
}
use ai_test_assistant.Workflow.Fail.{
  Verdict, verdict, default_code, fails_claim, fail, fails_unit, fails_job, set_unit_failed,
  set_failed,
}

-- The store after `ClaimNext` took a candidate.
abbrev pub claimed : ℕ → ℕ → Job → Store → Store
claimed lease now c s = record s {
  jobs = update (job_is c.id) (set_claimed lease now) s.jobs;
  units = update (claims_unit c.id) (set_unit_claimed now) s.units;
}

-- What `Fail` decides for the row that it locked.
abbrev pub decided : JobView → ProcessError → String → Bool → Job → Verdict
decided c cause code retryable row =
    verdict c cause (default_code code) retryable (is_some row.cancel_requested_at)

-- The store after `Fail` wrote its decision.
abbrev pub failed_store : JobView → Verdict → String → ℕ → ℕ → Store → Store
failed_store c v message delay now s = record s {
  units = update (fails_unit c) (set_unit_failed v message now) s.units;
  jobs = update (fails_job c) (set_failed v message delay now) s.jobs;
}

module _ {ℓ} (P : Store → Type ℓ) where
  pub claim_next_cases :
      (lease now : ℕ) (s : Store)
      → P s
      → ((c : Job)
          → first_candidate now (sweep now s).jobs ≡ some c
          → P (claimed lease now c (sweep now s)))
      → P (claim_next lease now s).0
  unfolding claim_next
  claim_next_cases lease now s same taken =
      elim (Option-cases (first_candidate now (sweep now s).jobs)) [
        | inl e ↦ ground arith
        | inr (c, e) ↦ ground (arith, taken c e)
      ]

  pub heartbeat_cases :
      (c : JobView) (lease now : ℕ) (s : Store)
      → P (record s { jobs = update (renews c) (set_renewed lease now) s.jobs })
      → P (heartbeat c lease now s).0
  unfolding heartbeat
  heartbeat_cases c lease now s renewed = ground arith

  pub complete_cases :
      (encode : GenerationOutput → String) (c : JobView) (out : Output) (now : ℕ) (s : Store)
      → P s
      → ((output : String)
          → P (record s {
            units = update (holds_unit c s.jobs) (set_unit_completed output now) s.units;
            jobs = update (holds_claim c) (set_completed output now) s.jobs;
          }))
      → ((completed failures : ℕ) (output : String)
          → any_of (holds_live c now) s.jobs ≡ true
          → P (record s {
            units =
                update
                  (is_operation_unit c.job.id)
                  (set_unit_generated failures output now)
                  s.units;
            jobs = update (job_is c.job.id) (set_generated completed failures output now) s.jobs;
          }))
      → P (complete encode c out now s).0
  unfolding complete
  complete_cases encode c (json output) now s same done generated = ground (arith, done output)
  complete_cases encode c (generation out) now s same done generated =
      let completed = completed_count c.job.id s.units in
      let failures = failed_count c.job.id s.units in
      ground (
        arith,
        generated completed failures
            (encode (record out { completed_units = completed; failed_units = failures })),
      )

  pub fail_cases :
      (c : JobView) (cause : ProcessError) (code : String) (retryable : Bool) (delay now : ℕ)
      (s : Store)
      → P s
      → ((row : Job) (message : String)
          → find (fails_claim c) s.jobs ≡ some row
          → P (failed_store c (decided c cause code retryable row) message delay now s))
      → P (fail c cause code retryable delay now s).0
  unfolding fail
  fail_cases c cause code retryable delay now s same ended =
      elim (Option-cases (find (fails_claim c) s.jobs)) [
        | inl e ↦ ground arith
        | inr (row, e) ↦ elim (Option-cases (decided c cause code retryable row).message) [
          | inl m ↦ ground arith
          | inr (message, m) ↦ ground (arith, ended row message e)
        ]
      ]

  pub begin_generation_unit_cases :
      (c : JobView) (key : UnitKey) (now : ℕ) (s : Store)
      → P s
      → ((u : JobUnit)
          → find (is_unit c.job.id key) s.units ≡ some u
          → P (record s { units = update (λ v. v.id == u.id) (set_unit_begun now) s.units }))
      → P (begin_generation_unit c key now s).0
  unfolding begin_generation_unit
  begin_generation_unit_cases c key now s same begun =
      elim (Option-cases (find (is_unit c.job.id key) s.units)) [
        | inl e ↦ ground arith
        | inr (u, e) ↦ ground (arith, begun u e)
      ]

  pub fail_generation_unit_cases :
      (c : JobView) (u : JobUnit) (cause : ProcessError) (now : ℕ) (s : Store)
      → P s
      → ((failures : ℕ) (code message : String)
          → P (record s {
            units =
                update
                  (λ v. v.id == u.id && unit_running v.status)
                  (set_unit_broken code message now)
                  s.units;
            jobs = update (job_is c.job.id) (λ j. record j { failed_units = failures }) s.jobs;
          }))
      → P (fail_generation_unit c u cause now s).0
  unfolding fail_generation_unit
  fail_generation_unit_cases c u cause now s same broken =
      elim (Option-cases (truncate_error cause)) [
        | inl e ↦ ground arith
        | inr (message, e) ↦ ground (
          arith,
          broken
              (failed_count c.job.id (
                update (λ v. v.id == u.id && unit_running v.status)
                  (set_unit_broken (classify_error cause).0 message now) s.units))
              (classify_error cause).0 message,
        )
      ]
