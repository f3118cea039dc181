-- ===== src/Guide/Read.antt =====
-- backend/internal/workflow/service.go: `Read` and its helpers. The facts, the jobs (newest first) and
-- the generation scope are what the repository's queries return.
use Prim.Native.String.{String}
use ai_test_assistant.Prelude.{
  ℕ, max, Bool, true, false, not, ◌&&◌, ◌||◌, ◌==◌, ◌=s◌, ltb, leb, is_some, Option, none, some,
  List, [], ◌∷◌, ◌++◌, keep_if, find, if◌then◌else◌,
}
use ai_test_assistant.Workflow.Model.{
  Operation, index_documents, extract_requirements, generate_testcases, Job, is_terminal,
}
use ai_test_assistant.Workflow.Rows.{same_operation}
use ai_test_assistant.Workflow.Model.{JobStatus, partial_failed}
use ai_test_assistant.Guide.Model.{
  IndexStatus, index_ready, Facts, GenerationScope, StepKey, source, index, requirements, testcases,
  release, StepState, ready, complete, blocked, failed, in_progress, NextAction, reactivate_set,
  upload_document, wait_for_active_job, wait_for_parse, review_source, review_requirements,
  adjust_ai_budget, publish_suite_release, review_workflow, run, BlockingReason,
  document_set_inactive, no_documents, source_parse_pending, index_not_current, source_not_approved,
  no_approved_requirements, ai_budget_exhausted, Capabilities, StepView, ReadModel, same_step,
}

unfoldable pub is_ready : IndexStatus → Bool
is_ready index_ready = true
is_ready _ = false

-- `status == FAILED || status == PARTIAL_FAILED`.
unfoldable pub ended_failed : JobStatus → Bool
ended_failed JobStatus.failed = true
ended_failed partial_failed = true
ended_failed _ = false

-- The ranks of `roleAtLeast`, by a normalized role; an unknown role has none.
unfoldable pub rank : String → ℕ
rank role =
    if role =s "viewer"
    then 1
    else if role =s "editor"
    then 2
    else if role =s "reviewer"
    then 3
    else if role =s "admin"
    then 4
    else 0

-- `roleAtLeast`; `normalize` is `strings.ToLower(strings.TrimSpace(role))`.
unfoldable pub role_at_least : (String → String) → String → String → Bool
unfolding rank
role_at_least normalize actual required =
    let role = normalize actual in leb (rank required) (rank (if role =s "" then "admin" else role))

unfoldable pub bool_int : Bool → ℕ
bool_int true = 1
bool_int false = 0

unfoldable pub budget_available : Facts → Bool
budget_available f =
    ltb 0 f.budget_remaining_tokens
    && (not f.cost_budget_configured || ltb 0 f.budget_remaining_cost)

-- `len(xs) > 0`.
unfoldable pub has_some {ℓ} : {A : Type ℓ} → List A → Bool
has_some [] = false
has_some (_ ∷ _) = true

unfoldable pub index_current : Facts → Bool
unfolding is_ready
index_current f = is_ready f.index_status && f.indexed_revision == f.source_revision

unfoldable pub capabilities_of : (String → String) → String → Facts → GenerationScope → Capabilities
unfolding role_at_least budget_available has_some
capabilities_of normalize role f scope =
    let editable = role_at_least normalize role "editor" && f.active in
    let reviewer = role_at_least normalize role "reviewer" && f.active in
    let budget_ok = budget_available f in
    record {
      can_upload = editable;
      can_manage = role_at_least normalize role "reviewer";
      can_index = editable && ltb 0 f.document_count;
      can_extract = editable && (f.extraction_ready && budget_ok);
      can_generate =
          editable
          && ((ltb 0 f.approved_requirements && budget_ok) || has_some scope.removed_family_ids);
      can_review = reviewer;
      can_publish = reviewer && ltb 0 f.approved_test_cases;
      can_retry_job = editable;
      can_cancel_job = editable;
      can_adjust_budget = role_at_least normalize role "admin";
    }

-- A reason that applies, as the list that the code appends.
unfoldable pub when : Bool → BlockingReason → List BlockingReason
when true r = r ∷ []
when false r = []

unfoldable pub blocking_reasons_of : Facts → GenerationScope → List BlockingReason
unfolding when index_current has_some
blocking_reasons_of f scope =
    when (not f.active) (record {
      code = document_set_inactive;
      message = "document set is not active";
      step = source;
      next_action = reactivate_set;
    })
    ++ (if f.document_count == 0
        then record {
          code = no_documents;
          message = "upload at least one source document";
          step = source;
          next_action = upload_document;
        }
          ∷ []
        else when (ltb f.parsed_count f.document_count && not f.extraction_ready) (record {
          code = source_parse_pending;
          message = "one or more latest document versions are not parsed";
          step = source;
          next_action = wait_for_parse;
        }))
    ++ when (not (index_current f)) (record {
      code = index_not_current;
      message = "semantic index is missing or stale";
      step = index;
      next_action = run index_documents;
    })
    ++ when (index_current f && not f.extraction_ready) (record {
      code = source_not_approved;
      message = "all included source versions must be approved";
      step = requirements;
      next_action = review_source;
    })
    ++ when (f.approved_requirements == 0 && not (has_some scope.removed_family_ids)) (record {
      code = no_approved_requirements;
      message = "no current approved requirements";
      step = testcases;
      next_action = review_requirements;
    })
    ++ when
        (f.budget_remaining_tokens == 0
          || (f.cost_budget_configured && f.budget_remaining_cost == 0))
        (record {
          code = ai_budget_exhausted;
          message = "AI budget has no remaining capacity";
          step = requirements;
          next_action = adjust_ai_budget;
        })

-- The state of a step whose job, if it has one, does not decide it.
unfoldable pub idle_state : Bool → List BlockingReason → StepState
unfolding has_some
idle_state done reasons =
    if has_some reasons && not done then blocked else if done then complete else ready

-- The job's state over the idle one.
unfoldable pub job_state : Job → StepState → StepState
unfolding ended_failed is_terminal
job_state j idle =
    if ended_failed j.status
    then failed
    else if not (is_terminal j.status)
    then in_progress
    else idle

-- `workflowStep`; `none` is the zero `Job`, whose id is 0.
unfoldable pub workflow_step : StepKey → ℕ → ℕ → Bool → List BlockingReason → Option Job → StepView
unfolding idle_state job_state
workflow_step key completed total done reasons none = record {
  key = key;
  state = idle_state done reasons;
  completed_units = completed;
  total_units = total;
  blocking_reasons = reasons;
}
workflow_step key completed total done reasons (some j) = record {
  key = key;
  state = job_state j (idle_state done reasons);
  completed_units = j.completed_units;
  total_units = j.total_units;
  blocking_reasons = reasons;
}

-- `activeByOperation[op]`: a later job of the list replaces an earlier one.
unfoldable pub last_of : Operation → List Job → Option Job
last_of op [] = none
last_of op (j ∷ js) =
    let rest = last_of op js in
    if is_some rest then rest else if same_operation j.operation op then some j else none

-- `stepJob`, with `latestByOperation[op]`, which keeps the first job.
unfoldable pub step_job : List Job → List Job → Operation → Option Job
unfolding last_of ended_failed
step_job active jobs op = elim (last_of op active) [
  | some j ↦ some j
  | none ↦ elim (find (λ j. same_operation j.operation op) jobs) [
    | none ↦ none
    | some j ↦ if ended_failed j.status then some j else none
  ]
]

unfoldable pub step_reasons : List BlockingReason → StepKey → List BlockingReason
unfolding same_step
step_reasons items key = keep_if (λ r. same_step r.step key) items

unfoldable pub steps_of : Facts → List BlockingReason → List Job → List Job → List StepView
unfolding workflow_step step_job step_reasons index_current bool_int
steps_of f reasons active jobs =
    workflow_step source f.parsed_count f.document_count f.extraction_ready
      (step_reasons reasons source) none
    ∷ workflow_step index (bool_int (index_current f)) 1 (index_current f)
        (step_reasons reasons index) (step_job active jobs index_documents)
    ∷ workflow_step requirements f.approved_requirements (max f.requirement_count 1)
        (ltb 0 f.approved_requirements) (step_reasons reasons requirements)
        (step_job active jobs extract_requirements)
    ∷ workflow_step testcases f.approved_test_cases (max f.test_case_count 1)
        (ltb 0 f.test_case_count) (step_reasons reasons testcases)
        (step_job active jobs generate_testcases)
    ∷ workflow_step release (bool_int (ltb 0 f.release_count)) 1 (ltb 0 f.release_count) [] none
    ∷ []

-- The switch at the end of `Read`.
unfoldable pub next_action_of : Facts → GenerationScope → Capabilities → List Job → NextAction
unfolding index_current has_some
next_action_of f scope can active =
    if f.document_count == 0
    then upload_document
    else if has_some active
    then wait_for_active_job
    else if ltb f.parsed_count f.document_count && not (index_current f)
    then wait_for_parse
    else if can.can_index && not (index_current f)
    then run index_documents
    else if not f.extraction_ready
    then review_source
    else if can.can_generate
        && (has_some scope.affected_requirement_ids || has_some scope.removed_family_ids)
    then run generate_testcases
    else if can.can_extract && f.requirement_count == 0
    then run extract_requirements
    else if f.approved_requirements == 0
    then review_requirements
    else if can.can_generate && f.test_case_count == 0
    then run generate_testcases
    else if can.can_publish && f.release_count == 0
    then publish_suite_release
    else review_workflow

-- `Read`, from what its queries return.
unfoldable pub read :
    (String → String) → ℕ → String → Facts → GenerationScope → List Job → ReadModel
unfolding capabilities_of blocking_reasons_of steps_of next_action_of
read normalize set_id role f scope jobs =
    let active = keep_if (λ j. not (is_terminal j.status)) jobs in
    let can = capabilities_of normalize role f scope in
    let reasons = blocking_reasons_of f scope in
    record {
      document_set_id = set_id;
      source_revision = f.source_revision;
      steps = steps_of f reasons active jobs;
      capabilities = can;
      blocking_reasons = reasons;
      active_jobs = active;
      recent_jobs = jobs;
      next_action = next_action_of f scope can active;
    }
