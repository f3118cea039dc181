-- ===== src/Workflow/Checkpoints.antt =====
-- How `completeGeneration` ends a generation job from its stored unit checkpoints.
use Prim.Native.String.{String}
use ai_test_assistant.Prelude.{
  ℕ, ◌+◌, ◌<◌, ◌≡◌, ◌↔◌, true, none, some, List, update, find, ok, arith, any_of, find-update,
  find-and, find_sound, find_of_any,
}
use ai_test_assistant.Workflow.Model.{Job, JobView, Store, failed, succeeded, partial_failed}
use ai_test_assistant.Workflow.Rows.{job_is}
use ai_test_assistant.Workflow.Finish.{
  GenerationOutput, generation, complete, holds_live, is_live, completed_count, failed_count,
  total_count, set_generated,
}
use ai_test_assistant.Workflow.Consistency.{IsConsistent}

-- A generation job that ended with these checkpoints.
abbrev pub EndsGeneration : ℕ → ℕ → ℕ → Job → Type 0
EndsGeneration total completed failures after =
    (0 < total)
    × (completed + failures ≡ total)
    × (after.completed_units ≡ completed)
    × (after.failed_units ≡ failures)
    × ((after.status ≡ succeeded) ↔ (completed ≡ total))
    × ((after.status ≡ failed) ↔ (failures ≡ total))
    × ((after.status ≡ partial_failed) ↔ ((0 < completed) × (0 < failures)))
    × (after.lease_expires_at ≡ none)

generated_row :
    (total completed failures : ℕ) (output : String) (now : ℕ) (row : Job)
    → 0 < total
    → completed + failures ≡ total
    → EndsGeneration total completed failures (set_generated completed failures output now row)
unfolding set_generated
generated_row total completed failures output now row h e = ground arith

abbrev written : (GenerationOutput → String) → JobView → GenerationOutput → ℕ → Store → List Job
written encode c out now s =
    let completed = completed_count c.job.id s.units in
    let failures = failed_count c.job.id s.units in
    update (job_is c.job.id)
      (set_generated completed failures
        (encode (record out { completed_units = completed; failed_units = failures })) now)
      s.jobs

accepted :
    (encode : GenerationOutput → String) (c : JobView) (out : GenerationOutput) (now : ℕ)
    (s t : Store)
    → complete encode c (generation out) now s ≡ (t, ok tt)
    → (any_of (holds_live c now) s.jobs ≡ true)
      × (0 < total_count c.job.id s.units)
      × (completed_count c.job.id s.units + failed_count c.job.id s.units
          ≡ total_count c.job.id s.units)
      × (t.jobs ≡ written encode c out now s)
unfolding complete
accepted encode c out now s t e = ground arith

-- A generation that `Complete` accepts ends by the stored checkpoints of its units, not by the
-- processor's counts: each unit is done or failed, there is one at least, and the job is SUCCEEDED
-- when all are done, FAILED when all failed, and PARTIAL_FAILED otherwise.
pub generation_ends_by_checkpoints :
    (encode : GenerationOutput → String) (c : JobView) (out : GenerationOutput) (now : ℕ)
    (s t : Store)
    → IsConsistent s
    → complete encode c (generation out) now s ≡ (t, ok tt)
    → (after : Job) × (find (job_is c.job.id) t.jobs ≡ some after)
      × EndsGeneration
          (total_count c.job.id s.units)
          (completed_count c.job.id s.units)
          (failed_count c.job.id s.units)
          after
unfolding holds_live set_generated
generation_ends_by_checkpoints encode c out now s t h e =
    let a = accepted encode c out now s t e in
    let (row, live) = find_of_any (holds_live c now) s.jobs a.0 in
    let found = find-and (job_is c.job.id) (is_live c now) s.jobs row (h.one_job c.job.id) live in
    let completed = completed_count c.job.id s.units in
    let failures = failed_count c.job.id s.units in
    let output = encode (record out { completed_units = completed; failed_units = failures }) in
    let total = total_count c.job.id s.units in
    (
      set_generated completed failures output now row,
      rw
          (
            a.3,
            find-update (job_is c.job.id) (job_is c.job.id)
                (set_generated completed failures output now) s.jobs (λ j. ground arith),
            found,
          )
          (ground (arith, find_sound (job_is c.job.id) s.jobs row found)),
      generated_row total completed failures output now row a.1 a.2,
    )
