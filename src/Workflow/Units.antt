-- ===== src/Workflow/Units.antt =====
-- backend/internal/workflow/generation_units.go: `processGenerationUnits`.
use Prim.Native.String.{String}
use ai_test_assistant.Prelude.{ℕ, ◌+◌, true, false, List, [], ◌∷◌, Result, ok, err}
use ai_test_assistant.Workflow.Model.{JobUnit, JobView, Store, UnitKey, Error}
use ai_test_assistant.Workflow.Rows.{unit_succeeded}
use ai_test_assistant.Workflow.Errors.{ProcessError}
use ai_test_assistant.Workflow.Finish.{GenerationOutput}
use ai_test_assistant.Workflow.Generation.{
  Pin, generation_keys, begin_generation_unit, fail_generation_unit,
}

-- What `GeneratePinned` answers: proposals, an error that ends the attempt (the context is done, or the
-- generation lease is lost), or one that breaks the unit.
pub data Generated : Type 0 where
  proposals : ℕ → Generated
  stopped broken : ProcessError → Generated

-- The errors of the loop: the repository's, or the generation's.
pub data UnitsError : Type 0 where
  repository_error : Error → UnitsError
  generation_error : ProcessError → UnitsError

unfoldable pub add_completed : ℕ → GenerationOutput → GenerationOutput
add_completed n out = record out {
  completed_units = out.completed_units + 1;
  proposal_count = out.proposal_count + n;
}

unfoldable pub add_failed : GenerationOutput → GenerationOutput
add_failed out = record out { failed_units = out.failed_units + 1 }

-- `now` gives the times of the loop's transactions, in their order. `generate` is `GeneratePinned` with what it stores; `saved` decodes the count of a stored output.
module _ (now : ℕ → ℕ) (generate : UnitKey → JobUnit → Store → Store × Generated)
    (saved : String → ℕ) where
  -- The loop on the keys that are left, after `i` transactions, with the output so far.
  unfoldable pub process_units :
      JobView
      → ℕ
      → List UnitKey
      → GenerationOutput
      → Store
      → Store × Result UnitsError GenerationOutput
  unfolding add_completed add_failed
  process_units c i [] out s = (s, ok out)
  process_units c i (key ∷ keys) out s =
      let (t, begun) = begin_generation_unit c key (now i) s in
      elim begun [
        | err e ↦ (t, err (repository_error e))
        | ok u ↦ elim (unit_succeeded u.status) [
          | true ↦ process_units c (i + 1) keys (add_completed (saved u.output_ref) out) t
          | false ↦
              (let (r, answer) = generate key u t in
                elim answer [
                  | proposals n ↦ process_units c (i + 1) keys (add_completed n out) r
                  | stopped e ↦ (r, err (generation_error e))
                  | broken e ↦
                      (let (v, saved_failure) = fail_generation_unit c u e (now (i + 1)) r in
                        elim saved_failure [
                          | err f ↦ (v, err (repository_error f))
                          | ok _ ↦ process_units c (i + 2) keys (add_failed out) v
                        ])
                ])
        ]
      ]

  -- `processGenerationUnits`.
  unfoldable pub process_generation_units :
      JobView → Pin → Store → Store × Result UnitsError GenerationOutput
  unfolding process_units generation_keys
  process_generation_units c pin s =
      process_units c 0 (generation_keys pin)
        (record {
          review_proposals = true;
          proposal_count = 0;
          completed_units = 0;
          failed_units = 0;
        })
        s
