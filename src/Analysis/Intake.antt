-- ===== src/Analysis/Intake.antt =====
-- The intake of webhook deliveries, `Enqueue` of backend/internal/job/repository.go, with the partial
-- unique index of backend/migrations/000002_gitlab_analysis.up.sql.
use Prim.Native.String.{String}
use ai_test_assistant.Prelude.{
  ℕ, suc, Bool, true, false, not, ◌&&◌, Option, none, some, List, [], ◌∷◌, ◌++◌, Result, ok, err,
  ◌=s◌, any_of, find, if◌then◌else◌,
}
use ai_test_assistant.Analysis.Model.{
  pending, AnalysisJob, EnqueueInput, Store, QueueError, not_found,
}

-- `webhook_uuid = $1`.
abbrev pub has_webhook : String → AnalysisJob → Bool
has_webhook uuid j = j.webhook_uuid =s uuid

-- The inserted row; the columns that the statement does not name have their defaults.
unfoldable pub new_job : ℕ → ℕ → EnqueueInput → AnalysisJob
new_job id now input = record {
  id = id;
  project_id = input.project_id;
  merge_request_iid = input.merge_request_iid;
  source_sha = input.source_sha;
  target_sha = "";
  source_branch = "";
  target_branch = "";
  title = "";
  web_url = "";
  status = pending;
  error_message = none;
  webhook_uuid = input.webhook_uuid;
  attempt_count = 0;
  raw_event = input.raw_event;
  next_attempt_at = now;
  lease_expires_at = none;
  started_at = none;
  finished_at = none;
  created_at = now;
}

-- `UNIQUE INDEX … ON analysis_jobs (webhook_uuid) WHERE webhook_uuid <> ''`.
unfoldable pub conflicts : String → List AnalysisJob → Bool
conflicts uuid jobs = not (uuid =s "") && any_of (has_webhook uuid) jobs

-- `INSERT … ON CONFLICT DO NOTHING RETURNING …`: the row, if it was inserted.
unfoldable pub insert_job : ℕ → EnqueueInput → Store → Store × Option AnalysisJob
unfolding new_job conflicts
insert_job now input s =
    let job = new_job (s.next_id) now input in
    if conflicts (input.webhook_uuid) (s.jobs)
    then (s, none)
    else (record s { jobs = s.jobs ++ (job ∷ []); next_id = suc (s.next_id) }, some job)

-- What follows the `INSERT`: without a row, `getByWebhookUUID` reads the one that was there before.
unfoldable pub after_insert :
    String → Store × Option AnalysisJob → Store × Result QueueError (AnalysisJob × Bool)
after_insert uuid (s, some job) = (s, ok (job, true))
after_insert uuid (s, none) = elim (find (has_webhook uuid) (s.jobs)) [
  | some job ↦ (s, ok (job, false))
  | none ↦ (s, err not_found)
]

-- `Enqueue`: the job, and whether it is new.
unfoldable pub enqueue : ℕ → EnqueueInput → Store → Store × Result QueueError (AnalysisJob × Bool)
unfolding insert_job after_insert
enqueue now input s = after_insert (input.webhook_uuid) (insert_job now input s)
