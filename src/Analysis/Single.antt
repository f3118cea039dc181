-- ===== src/Analysis/Single.antt =====
-- The operations of the pipeline on a table with one job.
use ai_test_assistant.Prelude.{
  ℕ, ◌≡◌, refl, true, false, [], ◌∷◌, ==_refl, ok, err, update, transaction,
}
use ai_test_assistant.Analysis.Model.{AnalysisJob, Store, lease_lost, Stage}
use ai_test_assistant.Analysis.Queue.{
  claimable, oldest, next_job, set_claimed, claim_next, holds, update_held,
}
use ai_test_assistant.Analysis.Saves.{advance}

abbrev pub only_job : Store → AnalysisJob → Store
only_job s j = record s { jobs = j ∷ [] }

pub claim_next-only_job :
    (q : Stage) (lease now : ℕ) (s : Store) (j : AnalysisJob)
    → claimable q now j ≡ true
    → claim_next q lease now (only_job s j)
      ≡ (only_job s (set_claimed q lease now j), ok (set_claimed q lease now j))
unfolding claim_next next_job oldest update
claim_next-only_job q lease now s j h = rw (claim_next, next_job, h, ==_refl (j.id)) refl

pub update_held-only_job :
    (q : Stage) (id n : ℕ) (f : AnalysisJob → AnalysisJob) (s : Store) (j : AnalysisJob)
    → holds q id n j ≡ true
    → update_held q id n f (only_job s j) ≡ (only_job s (f j), ok tt)
unfolding update_held update
update_held-only_job q id n f s j h = rw (update_held, h) refl

pub advance-only_job :
    (q : Stage) (id n : ℕ) (f : AnalysisJob → AnalysisJob) (s : Store) (j : AnalysisJob)
    → holds q id n j ≡ true
    → transaction (only_job s j) (advance q id n f (only_job s j)) ≡ (only_job s (f j), ok tt)
unfolding advance update_held update
advance-only_job q id n f s j h = rw (advance, update_held, h) refl

pub advance-only_job_lost :
    (q : Stage) (id n : ℕ) (f : AnalysisJob → AnalysisJob) (s : Store) (j : AnalysisJob)
    → holds q id n j ≡ false
    → transaction (only_job s j) (advance q id n f (only_job s j)) ≡ (only_job s j, err lease_lost)
unfolding advance update_held
advance-only_job_lost q id n f s j h = rw (advance, update_held, h) refl
