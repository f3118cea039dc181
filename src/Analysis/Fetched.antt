-- ===== src/Analysis/Fetched.antt =====
-- What `SaveFetched` (backend/internal/job/repository.go) makes of the table of changed files.
use mathlib.Core.List.{append-nil, append_assoc}
use ai_test_assistant.Prelude.{
  ℕ, suc, ◌≡◌, ◌≢◌, refl, sym, ap, ◌∙◌, ◌⊎◌, inl, inr, Bool, true, false, not, List, [], ◌∷◌, ◌++◌,
  arith, ok, err, ◌==◌, ==_iff, ==_refl, keep_if, count_p, if◌then◌else◌, Bool-cases,
}
use ai_test_assistant.Analysis.Model.{MergeRequestMetadata, ChangedFile, Store, lease_lost, fetch}
use ai_test_assistant.Analysis.Queue.{holds, update_held}
use ai_test_assistant.Analysis.Saves.{
  of_analysis, insert_file, insert_path_signal, signal_path, insert_files, clear_fetched, advance,
  update_runs, save_fetched,
}

-- The specification: a map from analyses to their changed files, of which a save replaces one entry.
unfoldable pub files_of : ℕ → Store → List ChangedFile
files_of id s = keep_if (of_analysis id) (s.changed_files)

-- The rows that files become, with ids from `n` on.
unfoldable pub stored : ℕ → ℕ → List ChangedFile → List ChangedFile
stored id n [] = []
stored id n (f ∷ fs) = record f { id = n; analysis_job_id = id } ∷ stored id (suc n) fs

keep_if-append {ℓ} :
    {A : Type ℓ} (p : A → Bool) (xs ys : List A)
    → keep_if p (xs ++ ys) ≡ keep_if p xs ++ keep_if p ys
keep_if-append p [] ys = refl
keep_if-append p (x ∷ xs) ys = ground (arith, keep_if-append p xs ys)

insert_files-changed_files :
    (id : ℕ) (fs : List ChangedFile) (s : Store)
    → (insert_files id fs s).changed_files ≡ s.changed_files ++ stored id (s.next_file_id) fs
unfolding insert_files insert_path_signal insert_file stored
insert_files-changed_files id [] s = sym (append-nil (s.changed_files))
insert_files-changed_files id (f ∷ fs) s =
    insert_files-changed_files id fs (insert_path_signal id (signal_path f) (insert_file id f s))
    ∙ append_assoc (s.changed_files) _ _

cleared_files :
    (id : ℕ) (fs : List ChangedFile)
    → keep_if (of_analysis id) (keep_if (λ f. not (of_analysis id f)) fs) ≡ []
cleared_files id [] = refl
cleared_files id (f ∷ fs) = ground (arith, cleared_files id fs)

not_both :
    (id other : ℕ) (f : ChangedFile)
    → other ≢ id
    → of_analysis id f ≡ true
    → of_analysis other f ≡ false
not_both id other f h e = elim (Bool-cases (of_analysis other f)) [
  | inl g ↦
      absurd
        (h (sym ((==_iff (f.analysis_job_id) other).0 g) ∙ (==_iff (f.analysis_job_id) id).0 e))
  | inr g ↦ g
]

other_files :
    (id other : ℕ) (fs : List ChangedFile)
    → other ≢ id
    → keep_if (of_analysis other) (keep_if (λ f. not (of_analysis id f)) fs)
      ≡ keep_if (of_analysis other) fs
other_files id other [] h = refl
other_files id other (f ∷ fs) h = elim (Bool-cases (of_analysis id f)) [
  | inl e ↦
      let no : of_analysis other f ≡ false = not_both id other f h e in
      rw (e, no) (other_files id other fs h)
  | inr e ↦ rw e (ap (λ l. if of_analysis other f then f ∷ l else l) (other_files id other fs h))
]

stored_files :
    (id n : ℕ) (fs : List ChangedFile) → keep_if (of_analysis id) (stored id n fs) ≡ stored id n fs
unfolding stored
stored_files id n [] = refl
stored_files id n (f ∷ fs) =
    rw (==_refl id)
      (ap (λ l. record f { id = n; analysis_job_id = id } ∷ l) (stored_files id (suc n) fs))

no_stored_files :
    (id other n : ℕ) (fs : List ChangedFile)
    → other ≢ id
    → keep_if (of_analysis other) (stored id n fs) ≡ []
unfolding stored
no_stored_files id other n [] h = refl
no_stored_files id other n (f ∷ fs) h =
    rw (not_both id other (record f { id = n; analysis_job_id = id }) h (==_refl id))
      (no_stored_files id other (suc n) fs h)

own_rows :
    (id n : ℕ) (rows files : List ChangedFile)
    → keep_if (of_analysis id) (keep_if (λ f. not (of_analysis id f)) rows ++ stored id n files)
      ≡ stored id n files
own_rows id n rows files =
    keep_if-append (of_analysis id) (keep_if (λ f. not (of_analysis id f)) rows) (stored id n files)
    ∙ ap (λ l. l ++ keep_if (of_analysis id) (stored id n files)) (cleared_files id rows)
    ∙ stored_files id n files

other_rows :
    (id other n : ℕ) (rows files : List ChangedFile)
    → other ≢ id
    → keep_if (of_analysis other) (keep_if (λ f. not (of_analysis id f)) rows ++ stored id n files)
      ≡ keep_if (of_analysis other) rows
other_rows id other n rows files h =
    keep_if-append (of_analysis other) (keep_if (λ f. not (of_analysis id f)) rows)
      (stored id n files)
    ∙ ap (λ l. keep_if (of_analysis other) (keep_if (λ f. not (of_analysis id f)) rows) ++ l)
        (no_stored_files id other n files h)
    ∙ append-nil _
    ∙ other_files id other rows h

-- `SaveFetched` either fails with `ErrLeaseLost` and changes no table, or it succeeds, and then the
-- changed files of the analysis are just the given ones, in their order and with new ids, whatever was
-- stored for it before, and those of every other analysis are the ones that were there before.
pub save_fetched_refines :
    (id attempt : ℕ) (m : MergeRequestMetadata) (files : List ChangedFile) (now : ℕ) (s : Store)
    → (save_fetched id attempt m files now s ≡ (s, err lease_lost))
      ⊎ (((save_fetched id attempt m files now s).1 ≡ ok tt)
          × (files_of id (save_fetched id attempt m files now s).0
              ≡ stored id (s.next_file_id) files)
          × ((other : ℕ)
              → other ≢ id
              → files_of other (save_fetched id attempt m files now s).0 ≡ files_of other s))
unfolding save_fetched advance update_held update_runs clear_fetched files_of
save_fetched_refines id attempt m files now s =
    let t = insert_files id files (clear_fetched id s) in
    let rows = insert_files-changed_files id files (clear_fetched id s) in
    let mine =
      ap (keep_if (of_analysis id)) rows ∙ own_rows id (s.next_file_id) (s.changed_files) files in
    let others = λ (other : ℕ). λ (h : other ≢ id).
      ap (keep_if (of_analysis other)) rows
      ∙ other_rows id other (s.next_file_id) (s.changed_files) files h in
    elim (Bool-cases (count_p (holds fetch id attempt) (t.jobs) == 1)) [
      | inl e ↦ rw e (inr (refl, mine, others))
      | inr e ↦ rw e (inl refl)
    ]
