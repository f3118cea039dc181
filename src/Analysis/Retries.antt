-- ===== src/Analysis/Retries.antt =====
-- How often a job is tried after failures (backend/internal/job/repository.go and
-- its copies in the later stages).
use Prim.Native.String.{String}
use ai_test_assistant.Prelude.{
  ℕ, zero, suc, lt→ltb, ◌+◌, ◌*◌, ◌≤◌, ◌<◌, ◌≡◌, refl, ap, subst, ◌∙◌, true, false, none, some,
  arith, ◌==◌, ==_refl, ltb,
}
use ai_test_assistant.Analysis.Model.{
  Status, failed, code, AnalysisJob, Store, Stage, waiting, active,
}
use ai_test_assistant.Analysis.Queue.{
  claimable, next_attempt, set_claimed, holds, set_retried, retry_or_fail,
}
use ai_test_assistant.Analysis.Single.{only_job, claim_next-only_job, update_held-only_job}
use ai_test_assistant.Analysis.Worker.{finish_run, process_claim, run_once, always_fails, run_often}

-- A job that waits in the queue, with no attempt counted yet.
abbrev pub fresh_job : Stage → AnalysisJob → AnalysisJob
fresh_job q j = record j {
  status = waiting q;
  error_message = none;
  lease_expires_at = none;
  attempt_count = 0;
}

-- After `n` failures: the job waits for its next attempt.
unfoldable pub Waits : Stage → ℕ → ℕ → AnalysisJob → Type 0
Waits q n time k =
    (k.status ≡ waiting q)
    × (k.lease_expires_at ≡ none)
    × (next_attempt k ≡ suc n)
    × (k.next_attempt_at ≤ time)
    × (k.attempt_count ≡ n)

pub code_refl : (s : Status) → (code s == code s) ≡ true
code_refl s = ==_refl (code s)

pub claimable_waiting :
    (q : Stage) (n time : ℕ) (k : AnalysisJob) → Waits q n time k → claimable q time k ≡ true
unfolding Waits claimable
claimable_waiting q n time k (st, l, _, due_now, _) =
    rw (st, l, code_refl (waiting q)) (ground (arith, due_now))

holds_claimed :
    (q : Stage) (lease now n : ℕ) (k : AnalysisJob)
    → next_attempt k ≡ n
    → holds q (k.id) n (set_claimed q lease now k) ≡ true
unfolding holds set_claimed
holds_claimed q lease now n k h = rw (==_refl (k.id), code_refl (active q), h, ==_refl n) refl

-- One failure of a job that waits.
run_once-only_job :
    (q : Stage) (message : String) (max_attempts lease delay now n : ℕ) (s : Store)
    (k : AnalysisJob)
    → Waits q n now k
    → run_once q max_attempts lease delay (always_fails message) now (only_job s k)
      ≡ only_job s (set_retried q message max_attempts delay now (set_claimed q lease now k))
unfolding run_once process_claim finish_run retry_or_fail Waits set_claimed
run_once-only_job q message max_attempts lease delay now n s k w =
    let claim = claim_next-only_job q lease now s k (claimable_waiting q n now k w) in
    ap (process_claim q max_attempts delay (always_fails message) now) claim
    ∙ ap (λ r. r.0)
        (update_held-only_job q (k.id) (next_attempt k)
          (set_retried q message max_attempts delay now) s (set_claimed q lease now k)
          (holds_claimed q lease now (next_attempt k) k refl))

-- Below the limit, the job waits again with one failure more.
Waits-again :
    (q : Stage) (message : String) (max_attempts lease delay now n : ℕ) (k : AnalysisJob)
    → Waits q n now k
    → suc n < max_attempts
    → Waits q
        (suc n)
        (now + delay)
        (set_retried q message max_attempts delay now (set_claimed q lease now k))
unfolding Waits set_retried set_claimed next_attempt
Waits-again q message max_attempts lease delay now n k (st, l, next, due_now, count) low =
    rw next (rw (lt→ltb (suc n) max_attempts low) (refl, refl, refl, omega arith, refl))

ltb_refl : (n : ℕ) → ltb n n ≡ false
ltb_refl n = ground arith

tick : (now n d : ℕ) → now + n * d + d ≡ now + suc n * d
tick now n d = omega arith

-- A job that is new to a stage and alone in its queue, with a processor that always fails, is tried
-- again after each failure while the limit is not reached: after `n` iterations, fewer than the limit,
-- it waits in the queue with `n` attempts counted.
Waits-after :
    (q : Stage) (message : String) (max_attempts lease delay now n : ℕ) (s : Store)
    (j : AnalysisJob)
    → j.next_attempt_at ≤ now
    → n < max_attempts
    → (k : AnalysisJob) × Waits q n (now + n * delay) k
      × (run_often q max_attempts lease delay
            (always_fails message)
            now
            n
            (only_job s (fresh_job q j))
          ≡ only_job s k)
unfolding run_often Waits next_attempt
Waits-after q message max_attempts lease delay now zero s j due_now low =
    (fresh_job q j, (refl, refl, refl, omega (arith, due_now), refl), refl)
Waits-after q message max_attempts lease delay now (suc n) s j due_now low =
    let (k, w, e) =
      Waits-after q message max_attempts lease delay now n s j due_now (omega (arith, low)) in
    (
      _,
      subst
          (λ t. Waits q (suc n) t (
            set_retried q message max_attempts delay (now + n * delay)
              (set_claimed q lease (now + n * delay) k)))
          (tick now n delay)
          (Waits-again q message max_attempts lease delay (now + n * delay) n k w low),
      ap (run_once q max_attempts lease delay (always_fails message) (now + n * delay)) e
          ∙ run_once-only_job q message max_attempts lease delay (now + n * delay) n s k w,
    )

fails_last :
    (q : Stage) (message : String) (limit lease delay now : ℕ) (s : Store) (j : AnalysisJob)
    → j.next_attempt_at ≤ now
    → (k : AnalysisJob) × (run_often q
          (suc limit)
          lease
          delay
          (always_fails message)
          now
          (suc limit)
          (only_job s (fresh_job q j))
        ≡ only_job s k)
      × (k.status ≡ failed)
      × (k.attempt_count ≡ suc limit)
      × (k.error_message ≡ some message)
unfolding run_often Waits set_retried set_claimed
fails_last q message limit lease delay now s j due_now =
    let (k, w, e) =
      Waits-after q message (suc limit) lease delay now limit s j due_now (omega arith) in
    let at_limit = ltb_refl (suc limit) in
    (
      set_retried q message (suc limit) delay (now + limit * delay)
          (set_claimed q lease (now + limit * delay) k),
      ap (run_once q (suc limit) lease delay (always_fails message) (now + limit * delay)) e
          ∙ run_once-only_job q message (suc limit) lease delay (now + limit * delay) limit s k w,
      rw (w.2) (rw at_limit refl),
      w.2,
      refl,
    )

-- A job that is new to a stage and alone in its queue, with a processor that always fails and a limit
-- of at least one attempt, is failed for good by exactly as many iterations of the worker as the limit
-- allows: it then has the status `FAILED`, with that many attempts counted and the error's text kept,
-- and after any fewer iterations, `n`, it waits in the queue with `n` attempts counted.
pub failing_job_ends :
    (q : Stage) (message : String) (limit lease delay now : ℕ) (s : Store) (j : AnalysisJob)
    → j.next_attempt_at ≤ now
    → ((k : AnalysisJob) × (run_often q
            (suc limit)
            lease
            delay
            (always_fails message)
            now
            (suc limit)
            (only_job s (fresh_job q j))
          ≡ only_job s k)
        × (k.status ≡ failed)
        × (k.attempt_count ≡ suc limit)
        × (k.error_message ≡ some message))
      × ((n : ℕ)
          → n < suc limit
          → (k : AnalysisJob) × (run_often q
                (suc limit)
                lease
                delay
                (always_fails message)
                now
                n
                (only_job s (fresh_job q j))
              ≡ only_job s k)
            × (k.status ≡ waiting q)
            × (k.attempt_count ≡ n))
unfolding run_often Waits set_retried set_claimed
failing_job_ends q message limit lease delay now s j due_now = (
  fails_last q message limit lease delay now s j due_now,
  λ n low.
      let (k, w, e) = Waits-after q message (suc limit) lease delay now n s j due_now low in
      (k, e, w.0, w.4),
)
