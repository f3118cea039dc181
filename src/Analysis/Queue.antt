-- ===== src/Analysis/Queue.antt =====
-- The queue operations that the stages share: `claimNext` and `retryOrFail` of
-- backend/internal/job/repository.go, and `ClaimNext`, `RetryOrFail` and `RenewLease` of
-- backend/internal/{recommendation,generation,validation,repair}/repository.go, whose statements
-- differ in the statuses only. Each call is one transaction.
use Prim.Native.String.{String}
use ai_test_assistant.Prelude.{
  ℕ, suc, ◌+◌, Bool, ◌&&◌, ◌||◌, Option, none, some, List, [], ◌∷◌, Result, ok, err, ◌==◌, ltb, leb,
  if◌then◌else◌, is_none, due, coalesce, update, count_p,
}
use ai_test_assistant.Analysis.Model.{
  Status, failed, code, AnalysisJob, Store, QueueError, not_found, lease_lost, Stage, waiting,
  active,
}

abbrev pub has_status : Status → AnalysisJob → Bool
has_status s j = code (j.status) == code s

abbrev pub job_is : ℕ → AnalysisJob → Bool
job_is id j = j.id == id

-- The `WHERE` of `next_job`.
unfoldable pub claimable : Stage → ℕ → AnalysisJob → Bool
claimable q now j =
    (has_status (waiting q) j && (leb (j.next_attempt_at) now && is_none (j.lease_expires_at)))
    || (has_status (active q) j && due (j.lease_expires_at) now)

-- `ORDER BY created_at, id`.
unfoldable pub older : AnalysisJob → AnalysisJob → Bool
older a b = ltb (a.created_at) (b.created_at) || (a.created_at == b.created_at && ltb (a.id) (b.id))

unfoldable pub oldest : AnalysisJob → Option AnalysisJob → AnalysisJob
oldest j none = j
oldest j (some k) = if older k j then k else j

-- `next_job`.
unfoldable pub next_job : Stage → ℕ → List AnalysisJob → Option AnalysisJob
unfolding claimable oldest older
next_job q now [] = none
next_job q now (j ∷ js) =
    let rest = next_job q now js in if claimable q now j then some (oldest j rest) else rest

-- The `CASE` of the attempt count.
unfoldable pub next_attempt : AnalysisJob → ℕ
next_attempt j =
    if is_none (j.lease_expires_at) && is_none (j.error_message) then 1 else suc (j.attempt_count)

unfoldable pub set_claimed : Stage → ℕ → ℕ → AnalysisJob → AnalysisJob
unfolding next_attempt
set_claimed q lease now j = record j {
  status = active q;
  started_at = some (coalesce (j.started_at) now);
  error_message = none;
  attempt_count = next_attempt j;
  lease_expires_at = some (now + lease);
}

-- `claimNext`: the row of `next_job` is updated and returned.
unfoldable pub claim_next : Stage → ℕ → ℕ → Store → Store × Result QueueError AnalysisJob
unfolding next_job set_claimed
claim_next q lease now s = elim (next_job q now (s.jobs)) [
  | none ↦ (s, err not_found)
  | some j ↦ (
    record s { jobs = update (job_is (j.id)) (set_claimed q lease now) (s.jobs) },
    ok (set_claimed q lease now j),
  )
]

-- `WHERE id = $1 AND status = $7 AND attempt_count = $8`: the job is held by this attempt.
unfoldable pub holds : Stage → ℕ → ℕ → AnalysisJob → Bool
holds q id attempt j = job_is id j && (has_status (active q) j && j.attempt_count == attempt)

-- An `UPDATE` of the row that an attempt holds; `RowsAffected() != 1` is `ErrLeaseLost`.
unfoldable pub update_held :
    Stage → ℕ → ℕ → (AnalysisJob → AnalysisJob) → Store → Store × Result QueueError (Unit {0})
unfolding holds
update_held q id attempt f s = (
  record s { jobs = update (holds q id attempt) f (s.jobs) },
  if count_p (holds q id attempt) (s.jobs) == 1 then ok tt else err lease_lost,
)

unfoldable pub set_retried : Stage → String → ℕ → ℕ → ℕ → AnalysisJob → AnalysisJob
set_retried q message max_attempts delay now j =
    let again = ltb (j.attempt_count) max_attempts in
    record j {
      status = if again then waiting q else failed;
      error_message = some message;
      next_attempt_at = if again then now + delay else j.next_attempt_at;
      lease_expires_at = none;
      finished_at = if again then none else some now;
    }

-- `retryOrFail`, with the text of the error.
unfoldable pub retry_or_fail :
    Stage → ℕ → ℕ → String → ℕ → ℕ → ℕ → Store → Store × Result QueueError (Unit {0})
unfolding update_held set_retried
retry_or_fail q id attempt message max_attempts delay now =
    update_held q id attempt (set_retried q message max_attempts delay now)

unfoldable pub set_renewed : ℕ → ℕ → AnalysisJob → AnalysisJob
set_renewed lease now j = record j { lease_expires_at = some (now + lease) }

-- `RenewLease`.
unfoldable pub renew_lease : Stage → ℕ → ℕ → ℕ → ℕ → Store → Store × Result QueueError (Unit {0})
unfolding update_held set_renewed
renew_lease q id attempt lease now = update_held q id attempt (set_renewed lease now)
