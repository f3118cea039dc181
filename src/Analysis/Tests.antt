-- ===== src/Analysis/Tests.antt =====
-- The pipeline's theorems at one analysis of a merge request: intake, the fetch by two workers, and
-- validation.
use ai_test_assistant.Prelude.{
  ℕ, ◌+◌, ◌*◌, ◌≤◌, ◌<◌, ◌≡◌, ◌≢◌, refl, ◌⊎◌, true, false, none, some, [], ◌∷◌, map, arith, ok, err,
  count_p, update,
}
use ai_test_assistant.Analysis.Model.{
  pending, fetching_source, failed, AnalysisJob, EnqueueInput, MergeRequestMetadata, ChangedFile,
  Store, lease_lost, fetch, waiting, active,
}
use ai_test_assistant.Analysis.Queue.{
  job_is, claimable, oldest, next_job, next_attempt, set_claimed, claim_next, retry_or_fail,
}
use ai_test_assistant.Analysis.Intake.{new_job, conflicts, insert_job, after_insert, enqueue}
use ai_test_assistant.Analysis.Saves.{save_fetched, status_after_runs}
use ai_test_assistant.Analysis.Order.{IsFresh}
use ai_test_assistant.Analysis.Effects.{WellFormed, claims, enqueues}
use ai_test_assistant.Analysis.History.{here, then_step, Reach-WellFormed}
use ai_test_assistant.Analysis.Fencing.{IsRefused, overtaken_attempt-IsRefused}
use ai_test_assistant.Analysis.Single.{only_job}
use ai_test_assistant.Analysis.Loop.{saved_by_a, saved_by_d, overtaken_validation_accepted}
use ai_test_assistant.Analysis.Worker.{always_fails, run_often, dying_workers}
use ai_test_assistant.Analysis.Retries.{fresh_job, failing_job_ends}
use ai_test_assistant.Analysis.Deaths.{dying_workers_lem}
use ai_test_assistant.Analysis.Redelivery.{redelivered_webhook}
use ai_test_assistant.Analysis.Fetched.{files_of, stored, save_fetched_refines}

abbrev event : EnqueueInput
event = record {
  project_id = 1;
  merge_request_iid = 7;
  source_sha = "abc";
  webhook_uuid = "w-1";
  raw_event = "{}";
}

abbrev queued_job : AnalysisJob
queued_job = record {
  id = 3;
  project_id = 1;
  merge_request_iid = 7;
  source_sha = "abc";
  target_sha = "";
  source_branch = "";
  target_branch = "";
  title = "";
  web_url = "";
  status = pending;
  error_message = none;
  webhook_uuid = "w-1";
  attempt_count = 0;
  raw_event = "{}";
  next_attempt_at = 10;
  lease_expires_at = none;
  started_at = none;
  finished_at = none;
  created_at = 10;
}

abbrev no_jobs : Store
no_jobs = record {
  jobs = [];
  next_id = 3;
  changed_files = [];
  next_file_id = 1;
  scope_signals = [];
  baselines = [];
  test_runs = [];
}

abbrev one_job : Store
one_job = only_job (record no_jobs { next_id = 4 }) queued_job

-- The row after a claim at `now`, with its attempt.
abbrev claimed_job : ℕ → ℕ → AnalysisJob
claimed_job now attempt = record queued_job {
  status = fetching_source;
  started_at = some 20;
  attempt_count = attempt;
  lease_expires_at = some (now + 30);
}

queued : enqueue 10 event no_jobs ≡ (one_job, ok (queued_job, true))
unfolding enqueue insert_job after_insert new_job conflicts
queued = refl

no_jobs-WellFormed : WellFormed no_jobs
unfolding WellFormed
no_jobs-WellFormed = (λ id. omega arith, tt, tt)

one_row : (id : ℕ) → count_p (job_is id) (queued_job ∷ []) ≤ 1
one_row id = ground arith

one_job-WellFormed : WellFormed one_job
unfolding WellFormed IsFresh
one_job-WellFormed = (one_row, (omega arith, tt), ((λ _ _ _. refl), tt))

claimed_first : (claim_next fetch 30 20 one_job).1 ≡ ok (claimed_job 20 1)
unfolding claim_next next_job claimable oldest set_claimed next_attempt
claimed_first = refl

claimed_second :
    (claim_next fetch 30 60 (claim_next fetch 30 20 one_job).0).1 ≡ ok (claimed_job 60 2)
unfolding claim_next next_job claimable oldest set_claimed next_attempt update
claimed_second = refl

overtaken_attempt-IsRefused_example :
    IsRefused fetch 3 1 (claim_next fetch 30 60 (claim_next fetch 30 20 one_job).0).0
overtaken_attempt-IsRefused_example =
    overtaken_attempt-IsRefused fetch 30 20 30 60 one_job (claim_next fetch 30 20 one_job).0
      (claim_next fetch 30 60 (claim_next fetch 30 20 one_job).0).0 (claimed_job 20 1)
      (claimed_job 60 2) one_job-WellFormed (omega arith) claimed_first here claimed_second refl
      here

Reach-WellFormed_example : WellFormed (claim_next fetch 30 20 (enqueue 10 event no_jobs).0).0
Reach-WellFormed_example =
    Reach-WellFormed no_jobs-WellFormed
      (then_step (then_step here (enqueues 10 event)) (claims fetch 30 20))

overtaken_validation_accepted_example :
    ((saved_by_a queued_job 30 20 60 70 80 90 95 100 110 no_jobs (true ∷ []) (false ∷ [])).1
      ≡ ok tt)
    × (map
          (λ k. k.status)
          ((saved_by_a queued_job 30 20 60 70 80 90 95 100 110 no_jobs
            (true ∷ [])
            (false ∷ [])).0.jobs)
        ≡ status_after_runs (true ∷ []) ∷ [])
    × ((saved_by_d queued_job 30 20 60 70 80 90 95 100 110 no_jobs (true ∷ []) (false ∷ [])).1
        ≡ err lease_lost)
overtaken_validation_accepted_example =
    overtaken_validation_accepted queued_job 30 20 60 70 80 90 95 100 110 no_jobs (true ∷ [])
      (false ∷ []) (omega arith) (omega arith) (omega arith) (omega arith)

failing_job_ends_example :
    ((k : AnalysisJob) × (run_often fetch 3 30 5
          (always_fails "boom")
          20
          3
          (only_job no_jobs (fresh_job fetch queued_job))
        ≡ only_job no_jobs k)
      × (k.status ≡ failed)
      × (k.attempt_count ≡ 3)
      × (k.error_message ≡ some "boom"))
    × ((n : ℕ)
        → n < 3
        → (k : AnalysisJob) × (run_often fetch 3 30 5
              (always_fails "boom")
              20
              n
              (only_job no_jobs (fresh_job fetch queued_job))
            ≡ only_job no_jobs k)
          × (k.status ≡ waiting fetch)
          × (k.attempt_count ≡ n))
failing_job_ends_example = failing_job_ends fetch "boom" 2 30 5 20 no_jobs queued_job (omega arith)

dying_workers_lem_example :
    (k : AnalysisJob) × (dying_workers fetch 30 20 10
        (only_job no_jobs (fresh_job fetch queued_job))
      ≡ only_job no_jobs k)
    × (k.status ≡ active fetch)
    × (k.attempt_count ≡ 10)
    × (k.lease_expires_at ≡ some (20 + 9 * 30 + 30))
    × ((ended : AnalysisJob) × (retry_or_fail fetch
            (k.id)
            (k.attempt_count)
            "boom"
            3
            5
            900
            (only_job no_jobs k)
          ≡ (only_job no_jobs ended, ok tt))
        × (ended.status ≡ failed))
dying_workers_lem_example =
    dying_workers_lem fetch "boom" 3 30 5 20 900 9 no_jobs queued_job (omega arith) (omega arith)

queued_first : (enqueue 10 event no_jobs).1 ≡ ok (queued_job, true)
unfolding enqueue insert_job after_insert new_job conflicts
queued_first = refl

redelivered_webhook_example :
    (k : AnalysisJob) × (enqueue 50 event (claim_next fetch 30 20 (enqueue 10 event no_jobs).0).0
      ≡ ((claim_next fetch 30 20 (enqueue 10 event no_jobs).0).0, ok (k, false)))
    × (k.id ≡ 3)
redelivered_webhook_example =
    redelivered_webhook 10 50 event event no_jobs
      (claim_next fetch 30 20 (enqueue 10 event no_jobs).0).0 queued_job true no_jobs-WellFormed
      refl queued_first (then_step here (claims fetch 30 20)) refl

abbrev metadata : MergeRequestMetadata
metadata = record {
  source_sha = "abc";
  target_sha = "def";
  source_branch = "fix";
  target_branch = "main";
  title = "Fix";
  web_url = "";
}

abbrev fetched_file : ChangedFile
fetched_file = record {
  id = 0;
  analysis_job_id = 0;
  old_path = "a.go";
  new_path = "a.go";
  change_type = "modified";
  additions = 1;
  deletions = 0;
  diff = "";
  new_file = false;
  renamed_file = false;
  deleted_file = false;
  collapsed = false;
  too_large = false;
}

save_fetched_refines_example :
    (save_fetched 3 1 metadata (fetched_file ∷ []) 25 (claim_next fetch 30 20 one_job).0
      ≡ ((claim_next fetch 30 20 one_job).0, err lease_lost))
    ⊎ (((save_fetched 3 1 metadata (fetched_file ∷ []) 25 (claim_next fetch 30 20 one_job).0).1
          ≡ ok tt)
        × (files_of 3
              (save_fetched 3 1 metadata
                (fetched_file ∷ [])
                25
                (claim_next fetch 30 20 one_job).0).0
            ≡ stored 3 ((claim_next fetch 30 20 one_job).0.next_file_id) (fetched_file ∷ []))
        × ((other : ℕ)
            → other ≢ 3
            → files_of other
                (save_fetched 3 1 metadata
                  (fetched_file ∷ [])
                  25
                  (claim_next fetch 30 20 one_job).0).0
              ≡ files_of other (claim_next fetch 30 20 one_job).0))
save_fetched_refines_example =
    save_fetched_refines 3 1 metadata (fetched_file ∷ []) 25 (claim_next fetch 30 20 one_job).0
