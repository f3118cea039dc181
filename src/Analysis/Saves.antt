-- ===== src/Analysis/Saves.antt =====
-- The transactions that end a stage: `SaveFetched` and `SaveSymbols`
-- (backend/internal/job/repository.go), and of the other `Save…` calls the statement that hands the
-- job on (backend/internal/{recommendation,generation,validation,repair}/repository.go); what those
-- insert before it is left out. `complete_review` is the last statement of a review
-- (backend/internal/review/repository.go).
use Prim.Native.String.{String}
use ai_test_assistant.Prelude.{
  ℕ, suc, Bool, true, false, not, ◌&&◌, none, some, List, [], ◌∷◌, ◌++◌, Result, ok, ◌==◌, ◌=s◌,
  any_of, keep_if, update, if◌then◌else◌, transaction, ◌>>=◌,
}
use ai_test_assistant.Analysis.Model.{
  Status, analyzing_change, retrieving_context, generating_tests, validating, repairing,
  waiting_review, accepted, rejected, AnalysisJob, MergeRequestMetadata, ChangedFile, path,
  ScopeSignal, Store, QueueError, Stage, fetch, change, recommend, generate, validate, repair,
}
use ai_test_assistant.Analysis.Queue.{has_status, job_is, update_held}

-- `status = $2, error_message = NULL, lease_expires_at = NULL, next_attempt_at = NOW(),
-- attempt_count = 0`.
unfoldable pub set_advanced : Status → ℕ → AnalysisJob → AnalysisJob
set_advanced next now j = record j {
  status = next;
  error_message = none;
  lease_expires_at = none;
  next_attempt_at = now;
  attempt_count = 0;
}

-- The same with the columns of the merge request.
unfoldable pub set_fetched : MergeRequestMetadata → ℕ → AnalysisJob → AnalysisJob
unfolding set_advanced
set_fetched m now j = record (set_advanced analyzing_change now j) {
  source_sha = m.source_sha;
  target_sha = m.target_sha;
  source_branch = m.source_branch;
  target_branch = m.target_branch;
  title = m.title;
  web_url = m.web_url;
}

-- The same with `finished_at = CASE WHEN … THEN NOW() ELSE NULL END`.
unfoldable pub set_finished : Status → Bool → ℕ → AnalysisJob → AnalysisJob
unfolding set_advanced
set_finished next finished now j = record (set_advanced next now j) {
  finished_at = if finished then some now else none;
}

-- An `UPDATE` of the held row inside a transaction: `ErrLeaseLost` is an error return.
unfoldable pub advance :
    Stage → ℕ → ℕ → (AnalysisJob → AnalysisJob) → Store → Result QueueError (Store × Unit {0})
unfolding update_held
advance q id attempt f s =
    let updated = update_held q id attempt f s in updated.1 >>= λ _. ok (updated.0, tt)

abbrev pub of_analysis : ℕ → ChangedFile → Bool
of_analysis id f = f.analysis_job_id == id

abbrev pub is_path_signal : ℕ → ScopeSignal → Bool
is_path_signal id g = g.analysis_job_id == id && elim (g.signal_type) [ path ↦ true | _ ↦ false ]

-- `INSERT INTO changed_files`.
unfoldable pub insert_file : ℕ → ChangedFile → Store → Store
insert_file id f s = record s {
  changed_files = s.changed_files ++ (record f { id = s.next_file_id; analysis_job_id = id } ∷ []);
  next_file_id = suc (s.next_file_id);
}

-- The signal's path: the new one, or the old one of a deleted file.
unfoldable pub signal_path : ChangedFile → String
signal_path f = if f.new_path =s "" then f.old_path else f.new_path

abbrev pub same_signal : ℕ → String → ScopeSignal → Bool
same_signal id value g = is_path_signal id g && g.signal_value =s value

-- `INSERT INTO analysis_scope_signals … WHERE EXISTS(…) ON CONFLICT … DO NOTHING`.
unfoldable pub insert_path_signal : ℕ → String → Store → Store
insert_path_signal id value s = record s {
  scope_signals =
      if not (value =s "")
        && (any_of (λ b. b == id) (s.baselines)
            && not (any_of (same_signal id value) (s.scope_signals)))
      then s.scope_signals
        ++ (record { analysis_job_id = id; signal_type = path; signal_value = value } ∷ [])
      else s.scope_signals;
}

-- The loop over the fetched files.
unfoldable pub insert_files : ℕ → List ChangedFile → Store → Store
unfolding insert_file insert_path_signal signal_path
insert_files id [] s = s
insert_files id (f ∷ fs) s =
    insert_files id fs (insert_path_signal id (signal_path f) (insert_file id f s))

-- The two `DELETE`s.
unfoldable pub clear_fetched : ℕ → Store → Store
clear_fetched id s = record s {
  changed_files = keep_if (λ f. not (of_analysis id f)) (s.changed_files);
  scope_signals = keep_if (λ g. not (is_path_signal id g)) (s.scope_signals);
}

-- `UPDATE test_runs SET … WHERE analysis_job_id=$1 AND status='PENDING'`.
unfoldable pub update_runs : ℕ → MergeRequestMetadata → Store → Store
update_runs id m s = record s {
  test_runs =
      update (λ r. r.analysis_job_id == id && r.is_pending)
        (λ r. record r { source_sha = m.source_sha; target_sha = m.target_sha }) (s.test_runs);
}

-- `SaveFetched`.
unfoldable pub save_fetched :
    ℕ
    → ℕ
    → MergeRequestMetadata
    → List ChangedFile
    → ℕ
    → Store
    → Store × Result QueueError (Unit {0})
unfolding clear_fetched insert_files advance set_fetched update_runs
save_fetched id attempt m files now s = transaction s (
    advance fetch id attempt (set_fetched m now) (insert_files id files (clear_fetched id s))
    >>= λ advanced. ok (update_runs id m (advanced.0), tt))

-- `nextStatus` of a validated analysis, from whether each run passed.
unfoldable pub status_after_runs : List Bool → Status
status_after_runs [] = waiting_review
status_after_runs (passed ∷ rest) = if passed then status_after_runs rest else repairing

abbrev pub is_review : Status → Bool
is_review waiting_review = true
is_review _ = false

-- `nextStatus` of a repaired analysis, from the number of its repairs.
abbrev pub status_after_repairs : ℕ → Status
status_after_repairs n = if n == 0 then waiting_review else validating

-- The last statement of the `Save…` calls of the stages after the fetch.
module _ (id attempt now : ℕ) (s : Store) where
  unfoldable pub save_symbols : Store × Result QueueError (Unit {0})
  unfolding advance set_advanced
  save_symbols = transaction s (advance change id attempt (set_advanced retrieving_context now) s)

  unfoldable pub save_recommendations : Store × Result QueueError (Unit {0})
  unfolding advance set_advanced
  save_recommendations =
      transaction s (advance recommend id attempt (set_advanced generating_tests now) s)

  unfoldable pub save_generated : Store × Result QueueError (Unit {0})
  unfolding advance set_advanced
  save_generated = transaction s (advance generate id attempt (set_advanced validating now) s)

  unfoldable pub save_runs : List Bool → Store × Result QueueError (Unit {0})
  unfolding advance set_finished status_after_runs
  save_runs passed =
      let next = status_after_runs passed in
      transaction s (advance validate id attempt (set_finished next (is_review next) now) s)

  unfoldable pub save_repairs : ℕ → Store × Result QueueError (Unit {0})
  unfolding advance set_finished
  save_repairs repairs =
      transaction s (
        advance repair id attempt (set_finished (status_after_repairs repairs) (repairs == 0) now)
          s)

-- The last statement of a review, once every latest test is reviewed.
unfoldable pub set_reviewed : Bool → ℕ → AnalysisJob → AnalysisJob
set_reviewed has_rejection now j = record j {
  status = if has_rejection then rejected else accepted;
  finished_at = some now;
  lease_expires_at = none;
  next_attempt_at = now;
  error_message = none;
}

unfoldable pub complete_review : ℕ → Bool → ℕ → Store → Store
unfolding set_reviewed
complete_review id has_rejection now s = record s {
  jobs =
      update (λ j. job_is id j && has_status waiting_review j) (set_reviewed has_rejection now)
        (s.jobs);
}
