-- ===== src/Guide/Tests.antt =====
-- The read model of concrete document sets.
use Prim.Native.String.{String}
use ai_test_assistant.Prelude.{
  ℕ, ◌≡◌, ◌≤◌, ◌↔◌, refl, true, false, not, ◌&&◌, ◌==◌, List, [], ◌∷◌, some, find, length, count,
  ok,
}
use ai_test_assistant.Workflow.Model.{index_documents}
use ai_test_assistant.Guide.Model.{
  Facts, IndexStatus, GenerationScope, run, index, StepView, same_step, upload_document,
  wait_for_active_job,
}
use ai_test_assistant.Guide.Selection.{generation_selection, IsIncreasing, selection_normal_form}
use ai_test_assistant.Guide.Read.{read, has_some, index_current, step_reasons}
use ai_test_assistant.Guide.Advice.{
  permits, starts_work, IsManagedOnly, advised_work_is_permitted, inactive_set-IsManagedOnly,
}
use ai_test_assistant.Guide.Deciding.{IsStateOf}
use ai_test_assistant.Guide.Steps.{steps_follow_jobs}

abbrev same_role : String → String
same_role r = r

-- One parsed document, not indexed yet.
abbrev fresh : Facts
fresh = record {
  active = true;
  source_revision = 1;
  document_count = 1;
  parsed_count = 1;
  index_status = IndexStatus.not_indexed;
  indexed_revision = 0;
  extraction_ready = false;
  requirement_count = 0;
  approved_requirements = 0;
  test_case_count = 0;
  approved_test_cases = 0;
  release_count = 0;
  budget_remaining_tokens = 1000;
  budget_remaining_cost = 0;
  cost_budget_configured = false;
}

abbrev archived : Facts
archived = record fresh { active = false }

abbrev no_scope : GenerationScope
no_scope = record { affected_requirement_ids = []; removed_family_ids = [] }

advised_work_is_permitted_example :
    let m = read same_role 7 "editor" fresh no_scope [] in
    (starts_work m.next_action ≡ true
      → (permits m.capabilities m.next_action ≡ true) × (has_some m.active_jobs ≡ false))
    × (m.next_action ≡ run index_documents → index_current fresh ≡ false)
    × ((m.next_action ≡ upload_document) ↔ (fresh.document_count ≡ 0))
    × ((m.next_action ≡ wait_for_active_job)
        ↔ (not (fresh.document_count == 0) && has_some m.active_jobs ≡ true))
advised_work_is_permitted_example = advised_work_is_permitted same_role 7 "editor" fresh no_scope []

inactive_set-IsManagedOnly_example :
    IsManagedOnly same_role "admin" (read same_role 7 "admin" archived no_scope []).capabilities
    × (starts_work (read same_role 7 "admin" archived no_scope []).next_action ≡ false)
    × (has_some (read same_role 7 "admin" archived no_scope []).blocking_reasons ≡ true)
inactive_set-IsManagedOnly_example =
    inactive_set-IsManagedOnly same_role 7 "admin" archived no_scope [] refl

steps_follow_jobs_example :
    let m = read same_role 7 "editor" fresh no_scope [] in
    (v : StepView) × (find (λ x. same_step x.key index) m.steps ≡ some v)
    × IsStateOf false false false (step_reasons m.blocking_reasons index) v.state
unfolding index_current find has_some
steps_follow_jobs_example = steps_follow_jobs same_role 7 "editor" fresh no_scope [] index_documents

abbrev asked_ids : List ℕ
asked_ids = 5 ∷ 2 ∷ 9 ∷ []

abbrev chosen : List ℕ
chosen = 2 ∷ 5 ∷ 9 ∷ []

selects : generation_selection asked_ids ≡ ok chosen
unfolding generation_selection
selects = refl

selection_normal_form_example :
    (length chosen ≤ 100) × IsIncreasing 0 chosen × ((n : ℕ) → count n chosen ≡ count n asked_ids)
selection_normal_form_example = selection_normal_form asked_ids chosen selects
