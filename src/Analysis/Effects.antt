-- ===== src/Analysis/Effects.antt =====
-- The steps of the analysis pipeline, and what each does to the job rows: an update whose rows move
-- on, or a new row at the end.
use Prim.Native.String.{String}
use ai_test_assistant.Prelude.{
  ℕ, suc, ◌≤◌, ◌<◌, ◌≡◌, refl, sym, ap, subst, ◌∙◌, ◌⊎◌, inl, inr, Bool, true, false, Option, none,
  some, List, [], ◌∷◌, ◌++◌, arith, All, All-mono, count_p, ◌==◌, ==_refl, Bool-cases, Option-cases,
  update, any_of, find, find_of_any, only_row, none-ne-some, some-injective, transaction,
  false≢true,
}
use ai_test_assistant.Analysis.Model.{
  validating, retrieving_context, generating_tests, AnalysisJob, EnqueueInput, MergeRequestMetadata,
  ChangedFile, Store, Stage, fetch, change, recommend, generate, validate, repair,
}
use ai_test_assistant.Analysis.Queue.{
  job_is, claimable, older, oldest, next_job, set_claimed, claim_next, holds, update_held,
  retry_or_fail, renew_lease,
}
use ai_test_assistant.Analysis.Intake.{
  has_webhook, new_job, conflicts, insert_job, after_insert, enqueue,
}
use ai_test_assistant.Analysis.Saves.{
  set_fetched, advance, insert_file, signal_path, insert_path_signal, insert_files, clear_fetched,
  update_runs, save_fetched, status_after_runs, status_after_repairs, save_symbols,
  save_recommendations, save_generated, save_runs, save_repairs, set_reviewed, complete_review,
}
use ai_test_assistant.Analysis.Order.{
  place, stage_place, IsFresh, Moves, set_claimed-Moves, set_retried-Moves, set_renewed-Moves,
  set_advanced-Moves, set_fetched-Moves, set_finished-Moves, set_reviewed-Moves,
}

pub data Step (s : Store) : Store → Type 0 where
  claims : (q : Stage) (lease now : ℕ) → Step s (claim_next q lease now s).0
  retries :
      (q : Stage) (id attempt : ℕ) (message : String) (max_attempts delay now : ℕ)
      → Step s (retry_or_fail q id attempt message max_attempts delay now s).0
  renews : (q : Stage) (id attempt lease now : ℕ) → Step s (renew_lease q id attempt lease now s).0
  saves_fetched :
      (id attempt : ℕ) (m : MergeRequestMetadata) (files : List ChangedFile) (now : ℕ)
      → Step s (save_fetched id attempt m files now s).0
  saves_symbols : (id attempt now : ℕ) → Step s (save_symbols id attempt now s).0
  saves_recommendations : (id attempt now : ℕ) → Step s (save_recommendations id attempt now s).0
  saves_generated : (id attempt now : ℕ) → Step s (save_generated id attempt now s).0
  saves_runs :
      (id attempt now : ℕ) (passed : List Bool) → Step s (save_runs id attempt now s passed).0
  saves_repairs : (id attempt now repairs : ℕ) → Step s (save_repairs id attempt now s repairs).0
  reviews :
      (id : ℕ) (has_rejection : Bool) (now : ℕ) → Step s (complete_review id has_rejection now s)
  enqueues : (now : ℕ) (input : EnqueueInput) → Step s (enqueue now input s).0

-- One row has each id, the next id is new, and jobs that wait for a first attempt have none counted.
unfoldable pub WellFormed : Store → Type 0
WellFormed s =
    ((id : ℕ) → count_p (job_is id) (s.jobs) ≤ 1)
    × All (λ j. j.id < s.next_id) (s.jobs)
    × All IsFresh (s.jobs)

-- What a step does to the job rows.
pub data Effect (s t : Store) : Type 0 where
  updates :
      (p : AnalysisJob → Bool) (f : AnalysisJob → AnalysisJob)
      → t.jobs ≡ update p f (s.jobs)
      → t.next_id ≡ s.next_id
      → All (λ j. p j ≡ true → Moves j (f j)) (s.jobs)
      → Effect s t
  appends :
      (j : AnalysisJob)
      → t.jobs ≡ s.jobs ++ (j ∷ [])
      → t.next_id ≡ suc (s.next_id)
      → j.id ≡ s.next_id
      → IsFresh j
      → conflicts (j.webhook_uuid) (s.jobs) ≡ false
      → Effect s t

pub All-intro {ℓ} : {A : Type ℓ} (P : A → Type 0) (xs : List A) → ((x : A) → P x) → All P xs
All-intro P [] h = tt
All-intro P (x ∷ xs) h = (h x, All-intro P xs h)

update_never {ℓ} : {A : Type ℓ} (f : A → A) (xs : List A) → update (λ _. false) f xs ≡ xs
unfolding update
update_never f [] = refl
update_never f (x ∷ xs) = ap (λ l. x ∷ l) (update_never f xs)

unchanged : (s t : Store) → t.jobs ≡ s.jobs → t.next_id ≡ s.next_id → Effect s t
unchanged s t p q =
    updates (λ _. false) (λ j. j) (p ∙ sym (update_never (λ j. j) (s.jobs))) q
      (All-intro _ (s.jobs) (λ j e. absurd (false≢true e)))

update_held-Effect :
    (q : Stage) (id attempt : ℕ) (f : AnalysisJob → AnalysisJob) (s : Store)
    → ((j : AnalysisJob) → holds q id attempt j ≡ true → Moves j (f j))
    → Effect s (update_held q id attempt f s).0
unfolding update_held
update_held-Effect q id attempt f s h =
    updates (holds q id attempt) f refl refl (All-intro _ (s.jobs) h)

-- In a transaction, a lost lease changes nothing.
advance-Effect :
    (q : Stage) (id attempt : ℕ) (f : AnalysisJob → AnalysisJob) (s : Store)
    → ((j : AnalysisJob) → holds q id attempt j ≡ true → Moves j (f j))
    → Effect s (transaction s (advance q id attempt f s)).0
unfolding advance update_held
advance-Effect q id attempt f s h = elim (Bool-cases (count_p (holds q id attempt) (s.jobs) == 1)) [
  | inl e ↦ rw e (updates (holds q id attempt) f refl refl (All-intro _ (s.jobs) h))
  | inr e ↦ rw e (unchanged s s refl refl)
]

insert_files-jobs :
    (id : ℕ) (fs : List ChangedFile) (s : Store)
    → ((insert_files id fs s).jobs ≡ s.jobs) × ((insert_files id fs s).next_id ≡ s.next_id)
unfolding insert_files insert_path_signal insert_file
insert_files-jobs id [] s = (refl, refl)
insert_files-jobs id (f ∷ fs) s =
    insert_files-jobs id fs (insert_path_signal id (signal_path f) (insert_file id f s))

save_fetched-Effect :
    (id attempt : ℕ) (m : MergeRequestMetadata) (files : List ChangedFile) (now : ℕ) (s : Store)
    → Effect s (save_fetched id attempt m files now s).0
unfolding save_fetched advance update_held clear_fetched update_runs
save_fetched-Effect id attempt m files now s =
    let same = insert_files-jobs id files (clear_fetched id s) in
    let t = insert_files id files (clear_fetched id s) in
    elim (Bool-cases (count_p (holds fetch id attempt) (t.jobs) == 1)) [
      | inl e ↦ rw e (
          updates (holds fetch id attempt) (set_fetched m now)
            (ap (update (holds fetch id attempt) (set_fetched m now)) (same.0)) (same.1)
            (All-intro _ (s.jobs) (λ j h. set_fetched-Moves id attempt m now j h)))
      | inr e ↦ rw e (unchanged s s refl refl)
    ]

status_after_runs-place :
    (passed : List Bool)
    → (stage_place validate < place (status_after_runs passed))
      ⊎ ((stage_place validate ≡ 4) × (place (status_after_runs passed) ≡ 4))
unfolding status_after_runs
status_after_runs-place [] = inl (omega arith)
status_after_runs-place (b ∷ passed) = elim (Bool-cases b) [
  | inl e ↦ rw e (status_after_runs-place passed)
  | inr e ↦ rw e (inr (refl, refl))
]

status_after_repairs-place :
    (n : ℕ)
    → (stage_place repair < place (status_after_repairs n))
      ⊎ ((stage_place repair ≡ 4) × (place (status_after_repairs n) ≡ 4))
status_after_repairs-place n = elim (Bool-cases (n == 0)) [
  | inl e ↦ rw e (inl (omega arith))
  | inr e ↦ rw e (inr (refl, refl))
]

oldest_lem :
    (P : AnalysisJob → Type 0) (j : AnalysisJob) (o : Option AnalysisJob)
    → P j
    → ((k : AnalysisJob) → o ≡ some k → P k)
    → P (oldest j o)
unfolding oldest
oldest_lem P j none p q = p
oldest_lem P j (some k) p q = elim (Bool-cases (older k j)) [
  | inl e ↦ rw e (q k refl)
  | inr e ↦ rw e p
]

-- The row that a queue takes is one of the rows, and the queue can claim it.
pub next_job-All :
    (P : AnalysisJob → Type 0) (q : Stage) (now : ℕ) (js : List AnalysisJob) (c : AnalysisJob)
    → All P js
    → next_job q now js ≡ some c
    → P c × (claimable q now c ≡ true)
unfolding next_job
next_job-All P q now [] c h e = absurd (none-ne-some c e)
next_job-All P q now (j ∷ js) c h e =
    let later =
      λ (k : AnalysisJob). λ (f : next_job q now js ≡ some k). next_job-All P q now js k (h.1) f in
    elim (Bool-cases (claimable q now j)) [
      | inl f ↦
          let same = some-injective (oldest j (next_job q now js)) c (rw f at e) in
          subst (λ x. P x × (claimable q now x ≡ true)) same
            (oldest_lem (λ x. P x × (claimable q now x ≡ true)) j (next_job q now js) (h.0, f)
              later)
      | inr f ↦ later c (rw f at e)
    ]

pub insert_job-conflicts :
    (now : ℕ) (input : EnqueueInput) (s : Store)
    → conflicts (input.webhook_uuid) (s.jobs) ≡ true
    → insert_job now input s ≡ (s, none)
unfolding insert_job
insert_job-conflicts now input s h = rw h refl

after_insert-none : (uuid : String) (s : Store) → (after_insert uuid (s, none)).0 ≡ s
unfolding after_insert
after_insert-none uuid s = elim (Option-cases (find (has_webhook uuid) (s.jobs))) [
  | inl e ↦ rw (after_insert, e) refl
  | inr e ↦ rw (after_insert, e.1) refl
]

enqueue-Effect : (now : ℕ) (input : EnqueueInput) (s : Store) → Effect s (enqueue now input s).0
unfolding enqueue after_insert insert_job IsFresh
enqueue-Effect now input s = elim (Bool-cases (conflicts (input.webhook_uuid) (s.jobs))) [
  | inl e ↦
      subst (Effect s)
        (sym (
          ap (λ r. (after_insert (input.webhook_uuid) r).0) (insert_job-conflicts now input s e)
          ∙ after_insert-none (input.webhook_uuid) s))
        (unchanged s s refl refl)
  | inr e ↦
      rw (insert_job, e) (appends (new_job (s.next_id) now input) refl refl refl (λ _ _ _. refl) e)
]

rows_found : (js : List AnalysisJob) → All (λ j. any_of (job_is (j.id)) js ≡ true) js
rows_found [] = tt
rows_found (j ∷ js) =
    (ground (arith, ==_refl (j.id)), All-mono _ _ js (λ k h. ground (arith, h)) (rows_found js))

-- The rows with the id of a row that a queue takes are that row.
pub next_job_row :
    (q : Stage) (now : ℕ) (s : Store) (c : AnalysisJob)
    → WellFormed s
    → next_job q now (s.jobs) ≡ some c
    → All (λ j. job_is (c.id) j ≡ true → j ≡ c) (s.jobs)
unfolding WellFormed
next_job_row q now s c w e =
    let found =
      find_of_any (job_is (c.id)) (s.jobs)
        (next_job-All _ q now (s.jobs) c (rows_found (s.jobs)) e).0 in
    let rows = only_row (job_is (c.id)) (s.jobs) (found.0) (w.0 (c.id)) (found.1) in
    let same =
      (next_job-All (λ j. job_is (c.id) j ≡ true → j ≡ found.0) q now (s.jobs) c rows e).0
        (==_refl (c.id)) in
    All-mono _ _ (s.jobs) (λ j h k. h k ∙ sym same) rows

claim_next-Effect :
    (q : Stage) (lease now : ℕ) (s : Store) → WellFormed s → Effect s (claim_next q lease now s).0
unfolding claim_next WellFormed
claim_next-Effect q lease now s w = elim (Option-cases (next_job q now (s.jobs))) [
  | inl e ↦ rw (claim_next, e) (unchanged s s refl refl)
  | inr (c, e) ↦
      let taken = next_job-All IsFresh q now (s.jobs) c (w.2) e in
      rw (claim_next, e)
        (updates (job_is (c.id)) (set_claimed q lease now) refl refl (
          All-mono _ _ (s.jobs)
            (λ j h k.
              subst (λ x. Moves x (set_claimed q lease now x)) (sym (h k))
                (set_claimed-Moves q lease now c (taken.1) (taken.0)))
            (next_job_row q now s c w e)))
]

pub step-Effect : {s t : Store} → WellFormed s → Step s t → Effect s t
unfolding retry_or_fail renew_lease save_symbols save_recommendations save_generated save_runs
    save_repairs complete_review
step-Effect {s} w (claims q lease now) = claim_next-Effect q lease now s w
step-Effect {s} w (retries q id attempt message max_attempts delay now) =
    update_held-Effect q id attempt _ s
      (set_retried-Moves q id attempt message max_attempts delay now)
step-Effect {s} w (renews q id attempt lease now) =
    update_held-Effect q id attempt _ s (λ j _. set_renewed-Moves lease now j)
step-Effect {s} w (saves_fetched id attempt m files now) =
    save_fetched-Effect id attempt m files now s
step-Effect {s} w (saves_symbols id attempt now) =
    advance-Effect change id attempt _ s
      (λ j h. set_advanced-Moves change id attempt retrieving_context now j h (inl (omega arith)))
step-Effect {s} w (saves_recommendations id attempt now) =
    advance-Effect recommend id attempt _ s
      (λ j h. set_advanced-Moves recommend id attempt generating_tests now j h (inl (omega arith)))
step-Effect {s} w (saves_generated id attempt now) =
    advance-Effect generate id attempt _ s
      (λ j h. set_advanced-Moves generate id attempt validating now j h (inl (omega arith)))
step-Effect {s} w (saves_runs id attempt now passed) =
    advance-Effect validate id attempt _ s (λ j h.
      set_finished-Moves validate id attempt (status_after_runs passed) _ now j h
        (status_after_runs-place passed))
step-Effect {s} w (saves_repairs id attempt now repairs) =
    advance-Effect repair id attempt _ s (λ j h.
      set_finished-Moves repair id attempt (status_after_repairs repairs) _ now j h
        (status_after_repairs-place repairs))
step-Effect {s} w (reviews id has_rejection now) =
    updates _ (set_reviewed has_rejection now) refl refl
      (All-intro _ (s.jobs) (set_reviewed-Moves id has_rejection now))
step-Effect {s} w (enqueues now input) = enqueue-Effect now input s
