-- ===== src/Guide/Advice.antt =====
-- The advice and the capabilities of the read model (backend/internal/workflow/service.go).
use Prim.Native.String.{String}
use ai_test_assistant.Prelude.{
  ℕ, ◌≡◌, ◌↔◌, refl, Bool, true, false, not, ◌&&◌, List, keep_if, arith, ◌==◌,
}
use ai_test_assistant.Workflow.Model.{
  index_documents, extract_requirements, generate_testcases, Job, is_terminal,
}
use ai_test_assistant.Guide.Model.{
  Facts, GenerationScope, NextAction, run, publish_suite_release, Capabilities, upload_document,
  review_source, review_requirements, reactivate_set, adjust_ai_budget, wait_for_active_job,
  wait_for_parse, review_workflow,
}
use ai_test_assistant.Guide.Read.{
  read, role_at_least, capabilities_of, next_action_of, has_some, index_current,
}

-- The capability that following an advice takes; waiting and looking take none.
abbrev pub permits : Capabilities → NextAction → Bool
permits can (run index_documents) = can.can_index
permits can (run extract_requirements) = can.can_extract
permits can (run generate_testcases) = can.can_generate
permits can publish_suite_release = can.can_publish
permits can upload_document = can.can_upload
permits can review_source = can.can_review
permits can review_requirements = can.can_review
permits can reactivate_set = can.can_manage
permits can adjust_ai_budget = can.can_adjust_budget
permits can wait_for_active_job = true
permits can wait_for_parse = true
permits can review_workflow = true

abbrev pub starts_work : NextAction → Bool
starts_work (run _) = true
starts_work publish_suite_release = true
starts_work _ = false

advised :
    (f : Facts) (scope : GenerationScope) (can : Capabilities) (active : List Job)
    → let a = next_action_of f scope can active in
      (starts_work a ≡ true → (permits can a ≡ true) × (has_some active ≡ false))
      × (a ≡ run index_documents → index_current f ≡ false)
      × ((a ≡ upload_document) ↔ (f.document_count ≡ 0))
      × ((a ≡ wait_for_active_job) ↔ (not (f.document_count == 0) && has_some active ≡ true))
unfolding next_action_of
advised f scope can active = ground arith

-- Work that `Read` advises is work that it permits: an operation, or the publication, is named as the
-- next action only if the user has the capability for it and no job is active, and the indexing only
-- while the index is missing or stale. An upload is advised exactly while there is no document, and
-- waiting for a job exactly while there are documents and an active job, whatever the capabilities.
pub advised_work_is_permitted :
    (normalize : String → String) (set_id : ℕ) (role : String) (f : Facts) (scope : GenerationScope)
    (jobs : List Job)
    → let m = read normalize set_id role f scope jobs in
      (starts_work m.next_action ≡ true
        → (permits m.capabilities m.next_action ≡ true) × (has_some m.active_jobs ≡ false))
      × (m.next_action ≡ run index_documents → index_current f ≡ false)
      × ((m.next_action ≡ upload_document) ↔ (f.document_count ≡ 0))
      × ((m.next_action ≡ wait_for_active_job)
          ↔ (not (f.document_count == 0) && has_some m.active_jobs ≡ true))
unfolding read
advised_work_is_permitted normalize set_id role f scope jobs =
    advised f scope (capabilities_of normalize role f scope)
      (keep_if (λ j. not (is_terminal j.status)) jobs)

-- The capabilities of a set that is not ACTIVE: the two that depend on the role alone.
abbrev pub IsManagedOnly : (String → String) → String → Capabilities → Type 0
IsManagedOnly normalize role can =
    (can.can_upload ≡ false)
    × (can.can_index ≡ false)
    × (can.can_extract ≡ false)
    × (can.can_generate ≡ false)
    × (can.can_review ≡ false)
    × (can.can_publish ≡ false)
    × (can.can_retry_job ≡ false)
    × (can.can_cancel_job ≡ false)
    × (can.can_manage ≡ role_at_least normalize role "reviewer")
    × (can.can_adjust_budget ≡ role_at_least normalize role "admin")

without_capabilities :
    (f : Facts) (scope : GenerationScope) (normalize : String → String) (role : String)
    (can : Capabilities) (active : List Job)
    → IsManagedOnly normalize role can
    → starts_work (next_action_of f scope can active) ≡ false
unfolding next_action_of
without_capabilities f scope normalize role can active h = ground (arith, h)

managed_only :
    (normalize : String → String) (role : String) (f : Facts) (scope : GenerationScope)
    → f.active ≡ false
    → IsManagedOnly normalize role (capabilities_of normalize role f scope)
unfolding capabilities_of
managed_only normalize role f scope h = ground (arith, h)

-- On a set that is not ACTIVE, whatever the role, `Read` gives none of the capabilities to upload, index,
-- extract, generate, review, publish, retry or cancel; managing the set is left to reviewers and
-- adjusting its budget to admins. The next action starts no work, and reasons are given.
pub inactive_set-IsManagedOnly :
    (normalize : String → String) (set_id : ℕ) (role : String) (f : Facts) (scope : GenerationScope)
    (jobs : List Job)
    → f.active ≡ false
    → let m = read normalize set_id role f scope jobs in
      IsManagedOnly normalize role m.capabilities
      × (starts_work m.next_action ≡ false)
      × (has_some m.blocking_reasons ≡ true)
unfolding read
inactive_set-IsManagedOnly normalize set_id role f scope jobs h =
    let only = managed_only normalize role f scope h in
    (
      only,
      without_capabilities f scope normalize role (capabilities_of normalize role f scope)
          (keep_if (λ j. not (is_terminal j.status)) jobs) only,
      rw h refl,
    )
