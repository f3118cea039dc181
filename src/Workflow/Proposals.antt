-- ===== src/Workflow/Proposals.antt =====
-- backend/internal/testcase/proposal_repository.go: `saveProposals`, which stores the generated test cases.
-- The rows of the proposals are not modelled: their count and the outcome of writing them are parameters.
use Prim.Native.String.{String}
use ai_test_assistant.Prelude.{
  ℕ, Bool, false, not, ◌&&◌, ◌||◌, ◌==◌, ◌=s◌, ltb, none, some, any_of, is_none, if◌then◌else◌,
  Result, ok, err, ◌>>=◌, ◌>>◌, require, transaction, ◌≡◌, refl, Bool-cases, inl, inr,
}
use ai_test_assistant.Workflow.Model.{Job, JobUnit, JobView, Store, generate_testcases}
use ai_test_assistant.Workflow.Rows.{is_running, unit_running, same_operation, job_is}
use ai_test_assistant.Workflow.Generation.{publish_unit}

-- The fields of `GenerationBaseline` that `saveProposals` passes to its statements on jobs and units.
pub record Baseline : Type 0 where
  pub workflow_job_id : ℕ
  pub workflow_attempt : ℕ
  pub workflow_claim_revision : ℕ
  pub workflow_unit_id : ℕ
  pub input_hash : String
  pub include_retire : Bool

-- The baseline that `processGenerationUnits` passes for a unit of its claim.
unfoldable pub baseline_of : JobView → JobUnit → Bool → Baseline
baseline_of c u include_retire = record {
  workflow_job_id = c.job.id;
  workflow_attempt = c.job.attempt_count;
  workflow_claim_revision = c.job.revision;
  workflow_unit_id = u.id;
  input_hash = c.job.input_hash;
  include_retire = include_retire;
}

-- ErrInvalidInput, ErrGenerationLease, and the other errors of the call.
pub data SaveError : Type 0 where
  invalid_baseline generation_lease not_written : SaveError

-- The tests of the job row that `saveProposals` locks, after that of its id.
unfoldable pub generates : Baseline → ℕ → ℕ → Job → Bool
generates b set_id now j =
    j.set_id == set_id
    && (same_operation j.operation generate_testcases
        && (is_running j.status
            && (j.attempt_count == b.workflow_attempt
                && (j.input_hash =s b.input_hash
                    && (is_none j.cancel_requested_at
                        && (elim j.lease_expires_at [ none ↦ false | some t ↦ ltb now t ]
                            && (b.workflow_claim_revision == 0
                                || j.revision == b.workflow_claim_revision)))))))

unfoldable pub holds_generation : Baseline → ℕ → ℕ → Job → Bool
unfolding generates
holds_generation b set_id now j = job_is b.workflow_job_id j && generates b set_id now j

unfoldable pub is_running_unit : Baseline → JobUnit → Bool
is_running_unit b u =
    u.id == b.workflow_unit_id && (u.workflow_job_id == b.workflow_job_id && unit_running u.status)

-- `stored` is the count of proposals that the job and unit have already, `written` the count after the
-- inserts or the error that ends them, `output` the JSON of a count.
module _ (stored : ℕ) (written : Result SaveError ℕ) (output : ℕ → String) where
  unfoldable pub save_body : Baseline → ℕ → Bool → ℕ → Store → Result SaveError (Store × ℕ)
  unfolding holds_generation is_running_unit
  save_body b set_id has_outputs now s = do
    require
        (not (
          b.workflow_job_id == 0
          || (b.workflow_attempt == 0 || (not has_outputs && not b.include_retire))))
        invalid_baseline
    require (any_of (holds_generation b set_id now) s.jobs) generation_lease
    require (b.workflow_unit_id == 0 || any_of (is_running_unit b) s.units) generation_lease
    if ltb 0 stored
        then ok (s, stored)
        else (written >>= λ count. ok (
          if b.workflow_unit_id == 0
              then s
              else publish_unit b.workflow_job_id b.workflow_unit_id (output count) now s,
          count,
        ))

  -- `saveProposals`.
  unfoldable pub save_proposals : Baseline → ℕ → Bool → ℕ → Store → Store × Result SaveError ℕ
  unfolding save_body
  save_proposals b set_id has_outputs now s = transaction s (save_body b set_id has_outputs now s)

  -- Without a job row that the baseline holds, nothing is saved.
  pub save_proposals-refused :
      (b : Baseline) (set_id : ℕ) (has_outputs : Bool) (now : ℕ) (s : Store)
      → any_of (holds_generation b set_id now) s.jobs ≡ false
      → (e : SaveError) × (save_proposals b set_id has_outputs now s ≡ (s, err e))
  unfolding save_proposals
  save_proposals-refused b set_id has_outputs now s h =
      elim (Bool-cases (
        not (
          b.workflow_job_id == 0
          || (b.workflow_attempt == 0 || (not has_outputs && not b.include_retire))))) [
            | inl p ↦ (generation_lease, rw (p, h) refl)
            | inr p ↦ (invalid_baseline, rw p refl)
          ]
