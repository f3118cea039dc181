-- ===== src/Analysis/Deaths.antt =====
-- How often a job is claimed whose workers die (backend/internal/job/repository.go and its copies in the
-- later stages).
use Prim.Native.String.{String}
use ai_test_assistant.Prelude.{
  ℕ, zero, suc, ◌+◌, ◌*◌, ◌≤◌, ◌≡◌, refl, ap, ◌∙◌, true, some, arith, ==_refl, ok,
}
use ai_test_assistant.Analysis.Model.{failed, AnalysisJob, Store, Stage, active}
use ai_test_assistant.Analysis.Queue.{
  claimable, next_attempt, set_claimed, claim_next, holds, set_retried, retry_or_fail,
}
use ai_test_assistant.Analysis.Single.{only_job, claim_next-only_job, update_held-only_job}
use ai_test_assistant.Analysis.Worker.{dying_workers}
use ai_test_assistant.Analysis.Retries.{fresh_job, Waits, code_refl, claimable_waiting}

claimable_expired :
    (q : Stage) (expiry time : ℕ) (k : AnalysisJob)
    → k.status ≡ active q
    → k.lease_expires_at ≡ some expiry
    → expiry ≤ time
    → claimable q time k ≡ true
unfolding claimable
claimable_expired q expiry time k st l e = rw (st, l, code_refl (active q)) (ground (arith, e))

next_expired :
    (k : AnalysisJob) (expiry : ℕ)
    → k.lease_expires_at ≡ some expiry
    → next_attempt k ≡ suc (k.attempt_count)
unfolding next_attempt
next_expired k expiry l = rw l refl

fresh_next : (q : Stage) (j : AnalysisJob) → next_attempt (fresh_job q j) ≡ 1
unfolding next_attempt
fresh_next q j = refl

dying_workers-only_job :
    (q : Stage) (lease now n : ℕ) (s : Store) (j : AnalysisJob)
    → j.next_attempt_at ≤ now
    → (k : AnalysisJob) × (dying_workers q lease now (suc n) (only_job s (fresh_job q j))
        ≡ only_job s k)
      × (k.status ≡ active q)
      × (k.attempt_count ≡ suc n)
      × (k.lease_expires_at ≡ some (now + n * lease + lease))
unfolding dying_workers set_claimed Waits
dying_workers-only_job q lease now zero s j due_now = (
  _,
  ap (λ r. r.0)
      (claim_next-only_job q lease (now + 0 * lease) s (fresh_job q j) (
        claimable_waiting q 0 (now + 0 * lease) (fresh_job q j)
          (refl, refl, fresh_next q j, omega (arith, due_now), refl))),
  refl,
  fresh_next q j,
  refl,
)
dying_workers-only_job q lease now (suc n) s j due_now =
    let (k, e, st, count, expiry) = dying_workers-only_job q lease now n s j due_now in
    (
      set_claimed q lease (now + suc n * lease) k,
      ap (λ x. (claim_next q lease (now + suc n * lease) x).0) e
          ∙ ap (λ r. r.0)
              (claim_next-only_job q lease (now + suc n * lease) s k (
                claimable_expired q (now + n * lease + lease) (now + suc n * lease) k st expiry
                  (omega arith))),
      refl,
      next_expired k _ expiry ∙ ap suc count,
      refl,
    )

holds_active :
    (q : Stage) (k : AnalysisJob) → k.status ≡ active q → holds q (k.id) (k.attempt_count) k ≡ true
unfolding holds
holds_active q k st = rw (st, ==_refl (k.id), code_refl (active q), ==_refl (k.attempt_count)) refl

fails_at_limit :
    (q : Stage) (message : String) (limit delay now : ℕ) (k : AnalysisJob)
    → limit ≤ k.attempt_count
    → (set_retried q message limit delay now k).status ≡ failed
unfolding set_retried
fails_at_limit q message limit delay now k l = ground (arith, l)

-- No limit stops the claims of a job whose workers die: a job that is new to a stage and alone in its
-- queue is claimed again each time a lease expires. Each of these claims counts an attempt; with `suc n`
-- of them, a number that may reach or exceed the limit, the job is still active, not `FAILED`, and holds
-- the next lease. Only a failure that is then reported compares the count with the limit, and fails it.
pub dying_workers_lem :
    (q : Stage) (message : String) (limit lease delay now later n : ℕ) (s : Store) (j : AnalysisJob)
    → j.next_attempt_at ≤ now
    → limit ≤ suc n
    → (k : AnalysisJob) × (dying_workers q lease now (suc n) (only_job s (fresh_job q j))
        ≡ only_job s k)
      × (k.status ≡ active q)
      × (k.attempt_count ≡ suc n)
      × (k.lease_expires_at ≡ some (now + n * lease + lease))
      × ((ended : AnalysisJob) × (retry_or_fail q
              (k.id)
              (k.attempt_count)
              message
              limit
              delay
              later
              (only_job s k)
            ≡ (only_job s ended, ok tt))
          × (ended.status ≡ failed))
unfolding retry_or_fail
dying_workers_lem q message limit lease delay now later n s j due_now l =
    let (k, e, st, count, expiry) = dying_workers-only_job q lease now n s j due_now in
    (
      k,
      e,
      st,
      count,
      expiry,
      (
        set_retried q message limit delay later k,
        update_held-only_job q (k.id) (k.attempt_count) (set_retried q message limit delay later) s
            k (holds_active q k st),
        fails_at_limit q message limit delay later k (omega (arith, l, count)),
      ),
    )
