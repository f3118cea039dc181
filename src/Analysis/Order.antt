-- ===== src/Analysis/Order.antt =====
-- The order in which a job passes through the stages: what one operation of the pipeline may do to a
-- row, whichever operation it is.
use Prim.Native.String.{String}
use ai_test_assistant.Prelude.{
  none-ne-some, ℕ, suc, ◌+◌, ◌≤◌, ◌<◌, ◌≡◌, refl, sym, ap, subst, ◌∙◌, ◌⊎◌, inl, inr, Bool, true,
  ◌&&◌, none, arith, ==_iff, if◌then◌else◌, Bool-cases, Option-cases, ltb, leb,
}
use ai_test_assistant.Analysis.Model.{
  Status, analyzing_change, waiting_review, code, AnalysisJob, MergeRequestMetadata, Stage, fetch,
  change, recommend, generate, validate, repair, waiting, active,
}
use ai_test_assistant.Analysis.Queue.{
  has_status, job_is, claimable, next_attempt, set_claimed, holds, set_retried, set_renewed,
}
use ai_test_assistant.Analysis.Saves.{set_advanced, set_fetched, set_finished, set_reviewed}

-- The place of a status in the pipeline. Validation and repair hand a job to each other, so they
-- share a place.
abbrev place_of : ℕ → ℕ
place_of n =
    if leb n 1
    then 0
    else if leb n 2
    then 1
    else if leb n 4
    then 2
    else if leb n 5
    then 3
    else if leb n 7
    then 4
    else if leb n 8
    then 5
    else 6

abbrev pub place : Status → ℕ
place s = place_of (code s)

abbrev pub stage_place : Stage → ℕ
stage_place q = place (active q)

-- A job that waits for its first attempt at a stage has none counted.
unfoldable pub IsFresh : AnalysisJob → Type 0
IsFresh j =
    place (j.status) < 5 → j.lease_expires_at ≡ none → j.error_message ≡ none → j.attempt_count ≡ 0

-- What one operation may make of a row: the row is the same job, its place does not go back, and
-- before validation its attempts do not go back at the same place.
unfoldable pub Moves : AnalysisJob → AnalysisJob → Type 0
unfolding IsFresh
Moves j k =
    (j.id ≡ k.id)
    × (j.webhook_uuid ≡ k.webhook_uuid)
    × (place (j.status) ≤ place (k.status))
    × (place (k.status) < 4
        → place (j.status) ≡ place (k.status)
        → j.attempt_count ≤ k.attempt_count)
    × IsFresh k

pub has_status-place :
    (a : Status) (j : AnalysisJob) → has_status a j ≡ true → place (j.status) ≡ place a
has_status-place a j h = ap place_of ((==_iff (code (j.status)) (code a)).0 h)

waiting-place : (q : Stage) → place (waiting q) ≡ stage_place q
waiting-place fetch = refl
waiting-place change = refl
waiting-place recommend = refl
waiting-place generate = refl
waiting-place validate = refl
waiting-place repair = refl

pub stage_place-bound : (q : Stage) → stage_place q < 5
stage_place-bound fetch = omega arith
stage_place-bound change = omega arith
stage_place-bound recommend = omega arith
stage_place-bound generate = omega arith
stage_place-bound validate = omega arith
stage_place-bound repair = omega arith

-- A row that a queue can claim stands at the queue's place.
pub claimable-place :
    (q : Stage) (now : ℕ) (j : AnalysisJob)
    → claimable q now j ≡ true
    → place (j.status) ≡ stage_place q
unfolding claimable
claimable-place q now j h = elim (Bool-cases (has_status (active q) j)) [
  | inl e ↦ has_status-place (active q) j e
  | inr e ↦ has_status-place (waiting q) j (ground (arith, h, e)) ∙ waiting-place q
]

-- Each claim counts one attempt more.
pub next_attempt-IsFresh :
    (j : AnalysisJob) → place (j.status) < 5 → IsFresh j → next_attempt j ≡ suc (j.attempt_count)
unfolding next_attempt IsFresh
next_attempt-IsFresh j h k = elim (Option-cases (j.lease_expires_at)) [
  | inl e ↦ elim (Option-cases (j.error_message)) [
    | inl f ↦ rw (e, f) (ap suc (sym (k h e f)))
    | inr f ↦ rw (e, f.1) refl
  ]
  | inr e ↦ rw (e.1) refl
]

pub set_claimed-Moves :
    (q : Stage) (lease now : ℕ) (j : AnalysisJob)
    → claimable q now j ≡ true
    → IsFresh j
    → Moves j (set_claimed q lease now j)
unfolding Moves set_claimed IsFresh
set_claimed-Moves q lease now j h k =
    let here = claimable-place q now j h in
    let bound = subst (λ p. p < 5) (sym here) (stage_place-bound q) in
    let next = next_attempt-IsFresh j bound k in
    (
      refl,
      refl,
      omega (arith, here),
      λ _ _. omega (arith, next),
      λ _ e _. absurd (none-ne-some (now + lease) (sym e)),
    )

pub holds-place :
    (q : Stage) (id attempt : ℕ) (j : AnalysisJob)
    → holds q id attempt j ≡ true
    → place (j.status) ≡ stage_place q
unfolding holds
holds-place q id attempt j h = has_status-place (active q) j (ground (arith, h))

pub set_retried-Moves :
    (q : Stage) (id attempt : ℕ) (message : String) (max_attempts delay now : ℕ) (j : AnalysisJob)
    → holds q id attempt j ≡ true
    → Moves j (set_retried q message max_attempts delay now j)
unfolding Moves set_retried IsFresh
set_retried-Moves q id attempt message max_attempts delay now j h =
    let here = holds-place q id attempt j h in
    let bound = stage_place-bound q in
    let back = waiting-place q in
    elim (Bool-cases (ltb (j.attempt_count) max_attempts)) [
      | inl e ↦ rw e (
        refl,
        refl,
        omega (arith, here, back),
        λ _ _. omega arith,
        λ _ _ f. absurd (none-ne-some message (sym f)),
      )
      | inr e ↦ rw e (
        refl,
        refl,
        omega (arith, here, bound),
        λ _ _. omega arith,
        λ _ _ f. absurd (none-ne-some message (sym f)),
      )
    ]

pub set_renewed-Moves : (lease now : ℕ) (j : AnalysisJob) → Moves j (set_renewed lease now j)
unfolding Moves set_renewed IsFresh
set_renewed-Moves lease now j = (
  refl,
  refl,
  omega arith,
  λ _ _. omega arith,
  λ _ e _. absurd (none-ne-some (now + lease) (sym e)),
)

-- A stage hands the job on to a later place, or from validation to repair and back.
pub set_advanced-Moves :
    (q : Stage) (id attempt : ℕ) (next : Status) (now : ℕ) (j : AnalysisJob)
    → holds q id attempt j ≡ true
    → (stage_place q < place next) ⊎ ((stage_place q ≡ 4) × (place next ≡ 4))
    → Moves j (set_advanced next now j)
unfolding Moves set_advanced IsFresh
set_advanced-Moves q id attempt next now j h (inl up) =
    let here = holds-place q id attempt j h in
    (refl, refl, omega (arith, here, up), λ _ e. absurd (omega (arith, here, up, e)), λ _ _ _. refl)
set_advanced-Moves q id attempt next now j h (inr both) =
    let here = holds-place q id attempt j h in
    (refl, refl, omega (arith, here, both), λ b _. absurd (omega (arith, both, b)), λ _ _ _. refl)

pub set_fetched-Moves :
    (id attempt : ℕ) (m : MergeRequestMetadata) (now : ℕ) (j : AnalysisJob)
    → holds fetch id attempt j ≡ true
    → Moves j (set_fetched m now j)
unfolding Moves set_fetched IsFresh
set_fetched-Moves id attempt m now j h =
    unfold Moves IsFresh in
    set_advanced-Moves fetch id attempt analyzing_change now j h (inl (omega arith))

pub set_finished-Moves :
    (q : Stage) (id attempt : ℕ) (next : Status) (finished : Bool) (now : ℕ) (j : AnalysisJob)
    → holds q id attempt j ≡ true
    → (stage_place q < place next) ⊎ ((stage_place q ≡ 4) × (place next ≡ 4))
    → Moves j (set_finished next finished now j)
unfolding Moves set_finished set_advanced IsFresh
set_finished-Moves q id attempt next finished now j h k =
    set_advanced-Moves q id attempt next now j h k

pub set_reviewed-Moves :
    (id : ℕ) (has_rejection : Bool) (now : ℕ) (j : AnalysisJob)
    → (job_is id j && has_status waiting_review j) ≡ true
    → Moves j (set_reviewed has_rejection now j)
unfolding Moves set_reviewed IsFresh
set_reviewed-Moves id has_rejection now j h =
    let here = has_status-place waiting_review j (ground (arith, h)) in
    elim (Bool-cases has_rejection) [
      | inl e ↦ rw e (
        refl,
        refl,
        omega (arith, here),
        λ b _. absurd (omega (arith, b)),
        λ b _ _. absurd (omega (arith, b)),
      )
      | inr e ↦ rw e (
        refl,
        refl,
        omega (arith, here),
        λ b _. absurd (omega (arith, b)),
        λ b _ _. absurd (omega (arith, b)),
      )
    ]
