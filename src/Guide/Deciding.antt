-- ===== src/Guide/Deciding.antt =====
-- Which job decides the state of a step, and the state that it gives
-- (backend/internal/workflow/service.go).
use ai_test_assistant.Prelude.{
  ℕ, ◌≡◌, ◌↔◌, ◌⊎◌, subst, sym, inl, inr, refl, Bool, true, false, not, ◌&&◌, List, [], ◌∷◌, none,
  some, keep_if, any_of, find, arith, Bool-cases, Option-cases,
}
use ai_test_assistant.Workflow.Model.{Operation, Job, JobStatus, is_terminal}
use ai_test_assistant.Workflow.Rows.{same_operation}
use ai_test_assistant.Guide.Model.{
  StepKey, StepState, ready, complete, blocked, failed, in_progress, BlockingReason,
}
use ai_test_assistant.Guide.Read.{
  has_some, workflow_step, ended_failed, last_of, step_job, idle_state, job_state,
}

-- A listed job of the operation has not ended.
abbrev pub has_active : Operation → List Job → Bool
has_active op = any_of (λ j. same_operation j.operation op && not (is_terminal j.status))

-- The newest listed job of the operation ended FAILED or PARTIAL_FAILED.
abbrev pub newest_failed : Operation → List Job → Bool
newest_failed op jobs = elim (find (λ j. same_operation j.operation op) jobs) [
  | none ↦ false
  | some j ↦ ended_failed j.status
]

-- The state of a step, by an active job, a failed one, whether it is done, and its blocking reasons.
abbrev pub IsStateOf : Bool → Bool → Bool → List BlockingReason → StepState → Type 0
IsStateOf active broke done reasons state =
    ((state ≡ in_progress) ↔ (active ≡ true))
    × ((state ≡ failed) ↔ (not active && broke ≡ true))
    × ((state ≡ complete) ↔ (not active && (not broke && done) ≡ true))
    × ((state ≡ blocked) ↔ (not active && (not broke && (not done && has_some reasons)) ≡ true))
    × ((state ≡ ready) ↔ (not active && (not broke && (not done && not (has_some reasons))) ≡ true))

last_of_cases :
    (op : Operation) (jobs : List Job)
    → let active = keep_if (λ j. not (is_terminal j.status)) jobs in
      ((last_of op active ≡ none) × (has_active op jobs ≡ false))
      ⊎ ((j : Job) × (last_of op active ≡ some j)
          × (is_terminal j.status ≡ false)
          × (has_active op jobs ≡ true))
unfolding last_of
last_of_cases op [] = inl (refl, refl)
last_of_cases op (j ∷ js) = elim (last_of_cases op js) [
  | inr (k, e, t, a) ↦ inr (k, ground (arith, e), t, ground (arith, a))
  | inl (e, a) ↦ elim (Bool-cases (is_terminal j.status)) [
    | inl t ↦ inl (rw t e, rw (t, a) (ground arith))
    | inr t ↦ elim (Bool-cases (same_operation j.operation op)) [
      | inl o ↦ inr (j, rw (t, e, o) refl, t, rw (t, o) refl)
      | inr o ↦ inl (rw (t, e, o) refl, rw (o, a) refl)
    ]
  ]
]

active_not_failed : (s : JobStatus) → is_terminal s ≡ false → ended_failed s ≡ false
unfolding is_terminal ended_failed
active_not_failed JobStatus.queued h = refl
active_not_failed JobStatus.running h = refl
active_not_failed JobStatus.succeeded h = refl
active_not_failed JobStatus.partial_failed h = absurd (ground (arith, h))
active_not_failed JobStatus.failed h = absurd (ground (arith, h))
active_not_failed JobStatus.canceled h = refl

failed_terminal : (s : JobStatus) → ended_failed s ≡ true → is_terminal s ≡ true
unfolding is_terminal ended_failed
failed_terminal JobStatus.queued h = absurd (ground (arith, h))
failed_terminal JobStatus.running h = absurd (ground (arith, h))
failed_terminal JobStatus.succeeded h = refl
failed_terminal JobStatus.partial_failed h = refl
failed_terminal JobStatus.failed h = refl
failed_terminal JobStatus.canceled h = refl

-- The job that decides the step, if one does.
step_job_cases :
    (op : Operation) (jobs : List Job)
    → let job = step_job (keep_if (λ j. not (is_terminal j.status)) jobs) jobs op in
      ((job ≡ none) × (has_active op jobs ≡ false) × (newest_failed op jobs ≡ false))
      ⊎ ((j : Job) × (job ≡ some j)
          × (has_active op jobs ≡ not (is_terminal j.status))
          × ((not (has_active op jobs) && newest_failed op jobs) ≡ ended_failed j.status))
unfolding step_job
step_job_cases op jobs = elim (last_of_cases op jobs) [
  | inr (j, e, t, a) ↦
      inr (j, rw (step_job, e) refl, rw (a, t) refl, rw (a, active_not_failed j.status t) refl)
  | inl (e, a) ↦ elim (Option-cases (find (λ j. same_operation j.operation op) jobs)) [
    | inl n ↦ inl (rw (step_job, e, n) refl, a, rw (newest_failed, n) refl)
    | inr (j, n) ↦ elim (Bool-cases (ended_failed j.status)) [
      | inl b ↦ inr (
        j,
        rw (step_job, e, n, b) refl,
        rw (a, failed_terminal j.status b) refl,
        rw (newest_failed, a, n, b) refl,
      )
      | inr b ↦ inl (rw (step_job, e, n, b) refl, a, rw (newest_failed, n, b) refl)
    ]
  ]
]

IsStateOf-job :
    (key : StepKey) (completed total : ℕ) (done : Bool) (reasons : List BlockingReason) (j : Job)
    (active broke : Bool)
    → active ≡ not (is_terminal j.status)
    → (not active && broke) ≡ ended_failed j.status
    → (ended_failed j.status ≡ true → is_terminal j.status ≡ true)
    → IsStateOf active broke done reasons
        (workflow_step key completed total done reasons (some j)).state
unfolding workflow_step idle_state job_state
IsStateOf-job key completed total done reasons j active broke a b t = ground (arith, a, b, t)

IsStateOf-none :
    (key : StepKey) (completed total : ℕ) (done : Bool) (reasons : List BlockingReason)
    → IsStateOf false false done reasons (workflow_step key completed total done reasons none).state
unfolding workflow_step idle_state
IsStateOf-none key completed total done reasons = ground arith

pub job_step_state :
    (key : StepKey) (completed total : ℕ) (done : Bool) (reasons : List BlockingReason)
    (jobs : List Job) (op : Operation)
    → IsStateOf
        (has_active op jobs)
        (newest_failed op jobs)
        done
        reasons
        (workflow_step key completed total done reasons
          (step_job (keep_if (λ j. not (is_terminal j.status)) jobs) jobs op)).state
job_step_state key completed total done reasons jobs op = elim (step_job_cases op jobs) [
  | inl (e, a, b) ↦
      subst
        (λ o.
          IsStateOf (has_active op jobs) (newest_failed op jobs) done reasons
            (workflow_step key completed total done reasons o).state)
        (sym e)
        (subst
          (λ x.
            IsStateOf x (newest_failed op jobs) done reasons
              (workflow_step key completed total done reasons none).state)
          (sym a)
          (subst
            (λ x.
              IsStateOf false x done reasons
                (workflow_step key completed total done reasons none).state)
            (sym b) (IsStateOf-none key completed total done reasons)))
  | inr (j, e, a, b) ↦
      subst
        (λ o.
          IsStateOf (has_active op jobs) (newest_failed op jobs) done reasons
            (workflow_step key completed total done reasons o).state)
        (sym e)
        (IsStateOf-job key completed total done reasons j (has_active op jobs)
          (newest_failed op jobs) a b (failed_terminal j.status))
]
