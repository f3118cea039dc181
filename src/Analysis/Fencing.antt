-- ===== src/Analysis/Fencing.antt =====
-- The calls of a worker whose job was claimed again (backend/internal/job/repository.go and its copies).
use Prim.Native.String.{String}
use ai_test_assistant.Prelude.{
  ℕ, suc, ◌<◌, ◌≡◌, refl, sym, ap, subst, ◌∙◌, arith, All, count_p, update_none, ok, err,
}
use ai_test_assistant.Analysis.Model.{AnalysisJob, Store, lease_lost, Stage}
use ai_test_assistant.Analysis.Queue.{claim_next, holds, update_held, retry_or_fail, renew_lease}
use ai_test_assistant.Analysis.Saves.{advance}
use ai_test_assistant.Analysis.Order.{stage_place}
use ai_test_assistant.Analysis.Effects.{WellFormed, claims}
use ai_test_assistant.Analysis.History.{Reach, Step-WellFormed, Reach-WellFormed}
use ai_test_assistant.Analysis.Floors.{AtLeast, claimed_floor, claim_above, not_held, Reach-AtLeast}

-- A call of the overtaken attempt changes nothing and fails.
unfoldable pub IsRefused : Stage → ℕ → ℕ → Store → Type 0
IsRefused q id n s =
    ((message : String) (max_attempts delay now : ℕ)
      → retry_or_fail q id n message max_attempts delay now s ≡ (s, err lease_lost))
    × ((lease now : ℕ) → renew_lease q id n lease now s ≡ (s, err lease_lost))
    × ((f : AnalysisJob → AnalysisJob) (t : Store)
        → t.jobs ≡ s.jobs
        → advance q id n f t ≡ err lease_lost)

refused :
    (q : Stage) (id n : ℕ) (s : Store) → count_p (holds q id n) (s.jobs) ≡ 0 → IsRefused q id n s
unfolding IsRefused retry_or_fail renew_lease advance update_held
refused q id n s h = (
  λ message max_attempts delay now. rw (h, update_none (holds q id n) _ (s.jobs) h) refl,
  λ lease now. rw (h, update_none (holds q id n) _ (s.jobs) h) refl,
  λ f t e. rw (ap (count_p (holds q id n)) e ∙ h) refl,
)

-- At a stage before validation, a worker claims a job, other operations follow in any number and
-- order, another claim of that stage then returns the same job, and operations follow again. From then
-- on every call of the first worker for its attempt is refused: `RetryOrFail` and `RenewLease` return
-- `ErrLeaseLost` and change no table, and the statement that would hand the job on to the next stage
-- returns `ErrLeaseLost`, whatever its transaction did to other tables before. The ids are unique, and
-- jobs that wait for their first attempt have none counted.
pub overtaken_attempt-IsRefused :
    (q : Stage) (lease now lease' now' : ℕ) (s u v : Store) (a b : AnalysisJob)
    → WellFormed s
    → stage_place q < 4
    → (claim_next q lease now s).1 ≡ ok a
    → Reach ((claim_next q lease now s).0) u
    → (claim_next q lease' now' u).1 ≡ ok b
    → b.id ≡ a.id
    → Reach ((claim_next q lease' now' u).0) v
    → IsRefused q (a.id) (a.attempt_count) v
overtaken_attempt-IsRefused q lease now lease' now' s u v a b w low h r k same r' =
    let p = claimed_floor q lease now s a (a.attempt_count) w h (omega arith) in
    let w' = Reach-WellFormed (Step-WellFormed w (claims q lease now)) r in
    let before =
      Reach-AtLeast (a.id) (stage_place q) (a.attempt_count) low
        (Step-WellFormed w (claims q lease now)) (p.1) r (p.0) in
    let above = claim_above q lease' now' u b (a.attempt_count) w' k (
      subst (λ i. All (AtLeast i (stage_place q) (a.attempt_count)) (u.jobs)) (sym same)
        (before.0)) in
    let p' = claimed_floor q lease' now' u b (suc (a.attempt_count)) w' k above in
    let after =
      Reach-AtLeast (b.id) (stage_place q) (suc (a.attempt_count)) low
        (Step-WellFormed w' (claims q lease' now')) (p'.1) r' (p'.0) in
    refused q (a.id) (a.attempt_count) v (
      not_held q (a.id) (a.attempt_count) (v.jobs) (
        subst (λ i. All (AtLeast i (stage_place q) (suc (a.attempt_count))) (v.jobs)) same
          (after.0)))
