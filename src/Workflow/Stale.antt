-- ===== src/Workflow/Stale.antt =====
-- The calls of a worker after another claim took its job (backend/internal/workflow/repository.go).
use Prim.Native.String.{String}
use ai_test_assistant.Prelude.{
  update_none, ℕ, ◌<◌, ◌≡◌, ◌≢◌, refl, false, List, [], ◌∷◌, All, All-find, count_p, any_of,
  find_sound, arith, ok, err, Result, Bool, true, some, find, is_some,
}
use ai_test_assistant.Workflow.Model.{Job, JobUnit, JobView, Store, lease_lost, UnitKey}
use ai_test_assistant.Workflow.Rows.{unit_attempt}
use ai_test_assistant.Workflow.Errors.{ProcessError}
use ai_test_assistant.Workflow.Claim.{claim_next, heartbeat, renews, set_renewed}
use ai_test_assistant.Workflow.Finish.{
  Output, GenerationOutput, json, generation, complete, holds_unit, holds_live, is_live,
}
use ai_test_assistant.Workflow.Generation.{begin_generation_unit, fail_generation_unit}
use ai_test_assistant.Workflow.Proposals.{
  SaveError, baseline_of, generates, holds_generation, save_proposals, save_proposals-refused,
}
use ai_test_assistant.Workflow.Fail.{fails_claim, is_attempt}
use ai_test_assistant.Workflow.Late.{FailsLate, fail-FailsLate}
use ai_test_assistant.Workflow.Consistency.{IsConsistent}
use ai_test_assistant.Workflow.Floor.{JobFloor, UnitFloor}
use ai_test_assistant.Workflow.Step.{Reach}
use ai_test_assistant.Workflow.Overtaken.{Overtaken, overtaken}

no_unit :
    (c : JobView) (js : List Job) (us : List JobUnit) (a : ℕ)
    → All (UnitFloor c.job.id a) us
    → unit_attempt c < a
    → count_p (holds_unit c js) us ≡ 0
unfolding holds_unit
no_unit c js [] a h l = refl
no_unit c js (u ∷ us) a h l = ground (arith, h.0, no_unit c js us a h.1 l)

not_live :
    (c : JobView) (now : ℕ) (js : List Job) (r : ℕ)
    → All (JobFloor c.job.id r) js
    → c.job.revision < r
    → any_of (holds_live c now) js ≡ false
unfolding holds_live is_live
not_live c now [] r h l = refl
not_live c now (j ∷ js) r h l = ground (arith, h.0, not_live c now js r h.1 l)

not_renewed :
    (c : JobView) (js : List Job) (r : ℕ)
    → All (JobFloor c.job.id r) js
    → c.job.revision < r
    → count_p (renews c) js ≡ 0
unfolding renews
not_renewed c [] r h l = refl
not_renewed c (j ∷ js) r h l = ground (arith, h.0, not_renewed c js r h.1 l)

not_generating :
    (c : JobView) (u : JobUnit) (retire : Bool) (set_id now : ℕ) (js : List Job) (r : ℕ)
    → All (JobFloor c.job.id r) js
    → c.job.revision < r
    → 0 < c.job.revision
    → any_of (holds_generation (baseline_of c u retire) set_id now) js ≡ false
unfolding holds_generation generates baseline_of
not_generating c u retire set_id now [] r h l p = refl
not_generating c u retire set_id now (j ∷ js) r h l p =
    ground (arith, h.0, not_generating c u retire set_id now js r h.1 l p)

Overtaken-complete :
    (encode : GenerationOutput → String) (c : JobView) (out : Output) (now : ℕ) (s : Store)
    → Overtaken c s
    → complete encode c out now s ≡ (s, err lease_lost)
unfolding complete
Overtaken-complete encode c (json output) now s o =
    rw (no_unit c s.jobs s.units o.attempt o.floor_of.attempts o.later_attempt) refl
Overtaken-complete encode c (generation out) now s o =
    rw (not_live c now s.jobs o.revision o.floor_of.rows o.later_revision) refl

Overtaken-begin :
    (c : JobView) (key : UnitKey) (now : ℕ) (s : Store)
    → Overtaken c s
    → begin_generation_unit c key now s ≡ (s, err lease_lost)
unfolding begin_generation_unit
Overtaken-begin c key now s o =
    rw (not_live c now s.jobs o.revision o.floor_of.rows o.later_revision) refl

Overtaken-fail_unit :
    (c : JobView) (u : JobUnit) (cause : ProcessError) (now : ℕ) (s : Store)
    → Overtaken c s
    → fail_generation_unit c u cause now s ≡ (s, err lease_lost)
unfolding fail_generation_unit
Overtaken-fail_unit c u cause now s o =
    rw (not_live c now s.jobs o.revision o.floor_of.rows o.later_revision) refl

Overtaken-heartbeat :
    (c : JobView) (lease now : ℕ) (s : Store)
    → Overtaken c s
    → ((heartbeat c lease now s).0 ≡ s) × ((heartbeat c lease now s).1 ≢ ok tt)
unfolding heartbeat
Overtaken-heartbeat c lease now s o =
    let zero_rows = not_renewed c s.jobs o.revision o.floor_of.rows o.later_revision in
    let same = update_none (renews c) (set_renewed lease now) s.jobs zero_rows in
    rw (zero_rows, same) (ground arith)

Overtaken-save :
    (stored : ℕ) (written : Result SaveError ℕ) (output : ℕ → String) (c : JobView) (u : JobUnit)
    (retire : Bool) (set_id : ℕ) (has_outputs : Bool) (now : ℕ) (s : Store)
    → Overtaken c s
    → (e : SaveError) × (save_proposals stored written output
          (baseline_of c u retire)
          set_id
          has_outputs
          now
          s
        ≡ (s, err e))
Overtaken-save stored written output c u retire set_id has_outputs now s o =
    save_proposals-refused stored written output (baseline_of c u retire) set_id has_outputs now s (
      not_generating c u retire set_id now s.jobs o.revision o.floor_of.rows o.later_revision
        o.was_claimed)

-- A row that `Fail` finds for an overtaken claim has been canceled since.
Overtaken-row :
    (c : JobView) (s : Store) (row : Job)
    → Overtaken c s
    → find (fails_claim c) s.jobs ≡ some row
    → is_some row.cancel_requested_at ≡ true
unfolding fails_claim is_attempt
Overtaken-row c s row o e =
    let sound = find_sound (fails_claim c) s.jobs row e in
    let above = All-find (JobFloor c.job.id o.revision) _ s.jobs row o.floor_of.rows e in
    ground (arith, sound, above, o.later_revision)

Overtaken-fail :
    (c : JobView) (cause : ProcessError) (code : String) (retryable : Bool) (delay now : ℕ)
    (s : Store)
    → Overtaken c s
    → FailsLate c s cause code retryable delay now
Overtaken-fail c cause code retryable delay now s o =
    fail-FailsLate c cause code retryable delay now s o.floor_of.keys
      (λ row e. Overtaken-row c s row o e)

-- What a worker whose claim `c` was replaced gets from the calls that report its work.
abbrev pub RefusesClaim : (GenerationOutput → String) → JobView → Store → Type 0
RefusesClaim encode c s =
    ((out : Output) (now : ℕ) → complete encode c out now s ≡ (s, err lease_lost))
    × ((key : UnitKey) (now : ℕ) → begin_generation_unit c key now s ≡ (s, err lease_lost))
    × ((u : JobUnit) (cause : ProcessError) (now : ℕ)
        → fail_generation_unit c u cause now s ≡ (s, err lease_lost))
    × ((lease now : ℕ) → ((heartbeat c lease now s).0 ≡ s) × ((heartbeat c lease now s).1 ≢ ok tt))
    × ((stored : ℕ) (written : Result SaveError ℕ) (output : ℕ → String) (u : JobUnit)
          (retire : Bool) (set_id : ℕ) (has_outputs : Bool) (now : ℕ)
        → (e : SaveError) × (save_proposals stored written output (baseline_of c u retire) set_id
              has_outputs now s
            ≡ (s, err e)))
    × ((cause : ProcessError) (code : String) (retryable : Bool) (delay now : ℕ)
        → FailsLate c s cause code retryable delay now)

-- Two claims of one job, with any operations before, between and after them. From the second claim on,
-- `Complete`, `beginGenerationUnit` and `failGenerationUnit` refuse the first claim with ErrLeaseLost, its
-- `Heartbeat` does not succeed, `saveProposals` answers an error for any unit of it, and none of the five
-- changes a row. Its `Fail` is refused with ErrLeaseLost and changes nothing either, but in one case: a
-- job that has a cancel request by then, which a `Fail` that is accepted ends as CANCELED.
pub stale_claim_refused :
    (encode : GenerationOutput → String) (lease later t0 t1 : ℕ) (s s1 s2 s3 s4 : Store)
    (c d : JobView)
    → IsConsistent s
    → claim_next lease t0 s ≡ (s1, ok c)
    → Reach s1 s2
    → claim_next later t1 s2 ≡ (s3, ok d)
    → d.job.id ≡ c.job.id
    → Reach s3 s4
    → RefusesClaim encode c s4
stale_claim_refused encode lease later t0 t1 s s1 s2 s3 s4 c d h first r again same rest =
    let o = overtaken lease later t0 t1 s s1 s2 s3 s4 c d h first r again same rest in
    (
      λ out now. Overtaken-complete encode c out now s4 o,
      λ key now. Overtaken-begin c key now s4 o,
      λ u cause now. Overtaken-fail_unit c u cause now s4 o,
      λ lease now. Overtaken-heartbeat c lease now s4 o,
      λ stored written output u retire set_id has_outputs now.
          Overtaken-save stored written output c u retire set_id has_outputs now s4 o,
      λ cause code retryable delay now. Overtaken-fail c cause code retryable delay now s4 o,
    )
