-- ===== src/Guide/Steps.antt =====
-- What the steps of the read model tell about the jobs of their operations
-- (backend/internal/workflow/service.go).
use Prim.Native.String.{String}
use ai_test_assistant.Prelude.{
  ℕ, max, ◌≡◌, refl, Bool, not, ltb, List, [], ◌∷◌, Option, none, some, keep_if, find,
}
use ai_test_assistant.Workflow.Model.{
  Operation, index_documents, extract_requirements, generate_testcases, Job, is_terminal,
}
use ai_test_assistant.Guide.Model.{
  Facts, GenerationScope, StepKey, source, index, requirements, testcases, BlockingReason, StepView,
  same_step,
}
use ai_test_assistant.Guide.Read.{
  read, bool_int, blocking_reasons_of, steps_of, index_current, workflow_step, step_reasons,
}
use ai_test_assistant.Guide.Deciding.{has_active, newest_failed, IsStateOf, job_step_state}

-- The step of an operation, and whether it is done.
abbrev pub step_of : Operation → StepKey
step_of index_documents = index
step_of extract_requirements = requirements
step_of generate_testcases = testcases

abbrev pub is_done : Facts → Operation → Bool
is_done f index_documents = index_current f
is_done f extract_requirements = ltb 0 f.approved_requirements
is_done f generate_testcases = ltb 0 f.test_case_count

key-workflow_step :
    (key : StepKey) (completed total : ℕ) (done : Bool) (reasons : List BlockingReason)
    (job : Option Job)
    → (workflow_step key completed total done reasons job).key ≡ key
unfolding workflow_step
key-workflow_step key completed total done reasons none = refl
key-workflow_step key completed total done reasons (some j) = refl

-- The steps of `Read` are found by their keys.
find-same_step :
    (op : Operation) (a b c d e : StepView)
    → a.key ≡ source
    → b.key ≡ index
    → c.key ≡ requirements
    → d.key ≡ testcases
    → find (λ x. same_step x.key (step_of op)) (a ∷ b ∷ c ∷ d ∷ e ∷ [])
      ≡ some (elim op [ index_documents ↦ b | extract_requirements ↦ c | generate_testcases ↦ d ])
unfolding find same_step
find-same_step index_documents a b c d e ka kb kc kd = rw (ka, kb) refl
find-same_step extract_requirements a b c d e ka kb kc kd = rw (ka, kb, kc) refl
find-same_step generate_testcases a b c d e ka kb kc kd = rw (ka, kb, kc, kd) refl

source_key :
    (f : Facts) (reasons : List BlockingReason)
    → (workflow_step source f.parsed_count f.document_count f.extraction_ready
        (step_reasons reasons source)
        none).key
      ≡ source
source_key f reasons =
    key-workflow_step source f.parsed_count f.document_count f.extraction_ready
      (step_reasons reasons source) none

found_step :
    (f : Facts) (reasons : List BlockingReason) (jobs : List Job) (op : Operation)
    → (v : StepView) × (find
          (λ x. same_step x.key (step_of op))
          (steps_of f reasons (keep_if (λ j. not (is_terminal j.status)) jobs) jobs)
        ≡ some v)
      × IsStateOf
          (has_active op jobs)
          (newest_failed op jobs)
          (is_done f op)
          (step_reasons reasons (step_of op))
          v.state
unfolding steps_of
found_step f reasons jobs index_documents = (
  _,
  find-same_step index_documents _ _ _ _ _ (source_key f reasons)
      (key-workflow_step index _ _ _ _ _) (key-workflow_step requirements _ _ _ _ _)
      (key-workflow_step testcases _ _ _ _ _),
  job_step_state index (bool_int (index_current f)) 1 (index_current f) (step_reasons reasons index)
      jobs index_documents,
)
found_step f reasons jobs extract_requirements = (
  _,
  find-same_step extract_requirements _ _ _ _ _ (source_key f reasons)
      (key-workflow_step index _ _ _ _ _) (key-workflow_step requirements _ _ _ _ _)
      (key-workflow_step testcases _ _ _ _ _),
  job_step_state requirements f.approved_requirements (max f.requirement_count 1)
      (ltb 0 f.approved_requirements) (step_reasons reasons requirements) jobs extract_requirements,
)
found_step f reasons jobs generate_testcases = (
  _,
  find-same_step generate_testcases _ _ _ _ _ (source_key f reasons)
      (key-workflow_step index _ _ _ _ _) (key-workflow_step requirements _ _ _ _ _)
      (key-workflow_step testcases _ _ _ _ _),
  job_step_state testcases f.approved_test_cases (max f.test_case_count 1) (ltb 0 f.test_case_count)
      (step_reasons reasons testcases) jobs generate_testcases,
)

-- The step of each operation in the read model, by the jobs that `Read` lists: IN_PROGRESS exactly if one
-- of the operation's jobs has not ended; FAILED exactly if none is active and the newest ended FAILED or
-- PARTIAL_FAILED; otherwise COMPLETE if its result is there, BLOCKED if it is not and a blocking reason
-- names the step, and READY if none does.
pub steps_follow_jobs :
    (normalize : String → String) (set_id : ℕ) (role : String) (f : Facts) (scope : GenerationScope)
    (jobs : List Job) (op : Operation)
    → let m = read normalize set_id role f scope jobs in
      (v : StepView) × (find (λ x. same_step x.key (step_of op)) m.steps ≡ some v)
      × IsStateOf
          (has_active op jobs)
          (newest_failed op jobs)
          (is_done f op)
          (step_reasons m.blocking_reasons (step_of op))
          v.state
unfolding read
steps_follow_jobs normalize set_id role f scope jobs op =
    found_step f (blocking_reasons_of f scope) jobs op
