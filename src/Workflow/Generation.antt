-- ===== src/Workflow/Generation.antt =====
-- backend/internal/workflow/generation_units.go: the units of a generation job; and
-- proposal_repository.go of the test cases, which stores a unit's success.
use Prim.Native.String.{String}
use ai_test_assistant.Prelude.{
  ℕ, ◌+◌, Bool, true, false, ◌&&◌, none, some, List, [], ◌∷◌, ◌++◌, map, ◌==◌, any_of,
  if◌then◌else◌, update, find, Result, ok, ◌>>=◌, ◌>>◌, require, or_err, transaction,
}
use ai_test_assistant.Workflow.Model.{
  JobUnit, JobView, Store, UnitStatus, UnitKey, requirement_key, retire_key, Error, lease_lost,
  database,
}
use ai_test_assistant.Workflow.Rows.{unit_running, unit_succeeded, same_key, job_is}
use ai_test_assistant.Workflow.Errors.{ProcessError, truncate_error, classify_error}
use ai_test_assistant.Workflow.Finish.{holds_live, failed_count, completed_count}

-- The scope of a pinned generation: the empty text of an old snapshot is `unscoped`.
pub data Scope : Type 0 where
  all_scope selected_scope affected_scope unscoped : Scope

-- The fields of `generateInputSnapshot` that the units depend on.
pub record Pin : Type 0 where
  pub scope : Scope
  pub per_requirement_units : Bool
  pub requirement_ids : List ℕ

unfoldable pub is_selected : Scope → Bool
is_selected selected_scope = true
is_selected _ = false

-- `generationKeys`.
unfoldable pub generation_keys : Pin → List UnitKey
unfolding is_selected
generation_keys pin =
    map requirement_key pin.requirement_ids
    ++ (if is_selected pin.scope then [] else retire_key ∷ [])

unfoldable pub is_unit : ℕ → UnitKey → JobUnit → Bool
is_unit id key u = u.workflow_job_id == id && same_key u.unit_key key

unfoldable pub set_unit_begun : ℕ → JobUnit → JobUnit
set_unit_begun now u = record u {
  status = UnitStatus.running;
  attempt_count = u.attempt_count + 1;
  error_code = "";
  error_message = "";
  started_at = some now;
  finished_at = none;
  updated_at = now;
}

unfoldable pub begin_body : JobView → UnitKey → ℕ → Store → Result Error (Store × JobUnit)
begin_body c key now s = do
  require (any_of (holds_live c now) s.jobs) lease_lost
  u ← or_err (find (is_unit c.job.id key) s.units) database
  if unit_succeeded u.status
      then ok (s, u)
      else ok (
        record s { units = update (λ v. v.id == u.id) (set_unit_begun now) s.units },
        set_unit_begun now u,
      )

-- `beginGenerationUnit`.
unfoldable pub begin_generation_unit : JobView → UnitKey → ℕ → Store → Store × Result Error JobUnit
unfolding begin_body
begin_generation_unit c key now s = transaction s (begin_body c key now s)

unfoldable pub set_unit_broken : String → String → ℕ → JobUnit → JobUnit
set_unit_broken code message now u = record u {
  status = UnitStatus.failed;
  error_code = code;
  error_message = message;
  finished_at = some now;
  updated_at = now;
}

unfoldable pub fail_unit_body :
    JobView → JobUnit → ProcessError → ℕ → Store → Result Error (Store × Unit {0})
unfolding failed_count
fail_unit_body c u cause now s = do
  require (any_of (holds_live c now) s.jobs) lease_lost
  message ← or_err (truncate_error cause) database
  let units : List JobUnit =
      update (λ v. v.id == u.id && unit_running v.status)
        (set_unit_broken (classify_error cause).0 message now) s.units
  ok (
    record s {
      units = units;
      jobs =
          update (job_is c.job.id) (λ j. record j { failed_units = failed_count c.job.id units })
            s.jobs;
    },
    tt,
  )

-- `failGenerationUnit`.
unfoldable pub fail_generation_unit :
    JobView → JobUnit → ProcessError → ℕ → Store → Store × Result Error (Unit {0})
unfolding fail_unit_body
fail_generation_unit c u cause now s = transaction s (fail_unit_body c u cause now s)

unfoldable pub set_unit_published : String → ℕ → JobUnit → JobUnit
set_unit_published output now u = record u {
  status = UnitStatus.succeeded;
  output_ref = output;
  finished_at = some now;
  updated_at = now;
}

-- The end of `saveProposals`: a unit's success is stored with its proposals; `output` is the JSON of
-- their count.
unfoldable pub publish_unit : ℕ → ℕ → String → ℕ → Store → Store
unfolding completed_count
publish_unit id unit_id output now s =
    let units : List JobUnit =
      update (λ u. u.id == unit_id) (set_unit_published output now) s.units in
    record s {
      units = units;
      jobs =
          update (job_is id) (λ j. record j { completed_units = completed_count id units }) s.jobs;
    }
