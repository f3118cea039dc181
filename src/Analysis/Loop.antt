-- ===== src/Analysis/Loop.antt =====
-- Validation and repair, which hand a job to each other and set its attempts back to 0 (backend/internal/validation/repository.go,
-- backend/internal/repair/repository.go).
use ai_test_assistant.Prelude.{
  ℕ, ◌+◌, ◌≤◌, ◌≡◌, refl, Bool, true, false, none, List, [], ◌∷◌, map, arith, ==_refl, leb, Result,
  ok, err, ap, ◌∙◌,
}
use ai_test_assistant.Analysis.Model.{
  validating, repairing, AnalysisJob, Store, QueueError, lease_lost, validate, repair,
}
use ai_test_assistant.Analysis.Queue.{claimable, next_attempt, set_claimed, claim_next, holds}
use ai_test_assistant.Analysis.Single.{
  only_job, claim_next-only_job, advance-only_job, advance-only_job_lost,
}
use ai_test_assistant.Analysis.Saves.{
  is_review, set_advanced, set_finished, status_after_runs, save_runs, save_repairs,
}

-- A job that has just come to validation, alone in its table.
abbrev pub to_validate : AnalysisJob → AnalysisJob
to_validate j = record j {
  status = validating;
  error_message = none;
  lease_expires_at = none;
  attempt_count = 0;
}

-- Worker A claims the job at `t0` and stalls. B claims it at `t1`, and saves a failed run at `t2`; C
-- claims the repair at `t3` and saves one repair at `t4`; D claims the repaired job at `t5`.
module _ (id lease t0 t1 t2 t3 t4 t5 : ℕ) (s : Store) where
  unfoldable pub repaired : Store
  unfolding claim_next save_runs save_repairs
  repaired =
      let by_b = (claim_next validate lease t1 (claim_next validate lease t0 s).0).0 in
      let failed_run = (save_runs id 2 t2 by_b (false ∷ [])).0 in
      let by_c = (claim_next repair lease t3 failed_run).0 in (save_repairs id 1 t4 by_c 1).0

  unfoldable pub claimed_by_d : Store
  unfolding repaired claim_next
  claimed_by_d = (claim_next validate lease t5 repaired).0

le→leb : (a b : ℕ) → a ≤ b → leb a b ≡ true
le→leb a b h = ground arith

-- The rows that the calls make of it.
module _ (j : AnalysisJob) (lease t0 t1 t2 t3 t4 t5 : ℕ) where
  abbrev row_a : AnalysisJob
  row_a = set_claimed validate lease t0 (to_validate j)

  abbrev row_b : AnalysisJob
  row_b = set_claimed validate lease t1 row_a

  abbrev row_failed : AnalysisJob
  row_failed = set_finished repairing false t2 row_b

  abbrev row_c : AnalysisJob
  row_c = set_claimed repair lease t3 row_failed

  abbrev row_repaired : AnalysisJob
  row_repaired = set_finished validating false t4 row_c

  abbrev row_d : AnalysisJob
  row_d = set_claimed validate lease t5 row_repaired

  module _ (s : Store) (h0 : j.next_attempt_at ≤ t0) (h1 : t0 + lease ≤ t1) (h2 : t2 ≤ t3)
      (h3 : t4 ≤ t5) where
    after_a :
        claim_next validate lease t0 (only_job s (to_validate j)) ≡ (only_job s row_a, ok row_a)
    unfolding claimable
    after_a = claim_next-only_job validate lease t0 s (to_validate j) (rw (le→leb _ _ h0) refl)

    after_b : claim_next validate lease t1 (only_job s row_a) ≡ (only_job s row_b, ok row_b)
    unfolding claimable set_claimed
    after_b = claim_next-only_job validate lease t1 s row_a (ground (arith, le→leb _ _ h1))

    after_failed :
        save_runs (j.id) 2 t2 (only_job s row_b) (false ∷ []) ≡ (only_job s row_failed, ok tt)
    unfolding save_runs status_after_runs holds set_claimed next_attempt
    after_failed =
        advance-only_job validate (j.id) 2 (set_finished repairing false t2) s row_b
          (rw (==_refl (j.id)) refl)

    after_c : claim_next repair lease t3 (only_job s row_failed) ≡ (only_job s row_c, ok row_c)
    unfolding claimable set_finished set_advanced
    after_c = claim_next-only_job repair lease t3 s row_failed (rw (le→leb _ _ h2) refl)

    after_repaired :
        save_repairs (j.id) 1 t4 (only_job s row_c) 1 ≡ (only_job s row_repaired, ok tt)
    unfolding save_repairs holds set_claimed next_attempt set_finished set_advanced
    after_repaired =
        advance-only_job repair (j.id) 1 (set_finished validating false t4) s row_c
          (rw (==_refl (j.id)) refl)

    after_d : claim_next validate lease t5 (only_job s row_repaired) ≡ (only_job s row_d, ok row_d)
    unfolding claimable set_finished set_advanced
    after_d = claim_next-only_job validate lease t5 s row_repaired (rw (le→leb _ _ h3) refl)

    loop_end :
        claimed_by_d (j.id) lease t0 t1 t2 t3 t4 t5 (only_job s (to_validate j)) ≡ only_job s row_d
    unfolding claimed_by_d repaired
    loop_end =
        ap
          (λ x.
            (claim_next validate lease t5
              (save_repairs (j.id) 1 t4
                (claim_next repair lease t3
                  (save_runs (j.id) 2 t2 (claim_next validate lease t1 x.0).0 (false ∷ [])).0).0
                1).0).0)
          after_a
        ∙ ap
            (λ r.
              (claim_next validate lease t5
                (save_repairs (j.id) 1 t4
                  (claim_next repair lease t3 (save_runs (j.id) 2 t2 r.0 (false ∷ [])).0).0 1).0).0)
            after_b
        ∙ ap
            (λ r.
              (claim_next validate lease t5
                (save_repairs (j.id) 1 t4 (claim_next repair lease t3 r.0).0 1).0).0)
            after_failed
        ∙ ap (λ r. (claim_next validate lease t5 (save_repairs (j.id) 1 t4 r.0 1).0).0) after_c
        ∙ ap (λ r. (claim_next validate lease t5 r.0).0) after_repaired
        ∙ ap (λ r. r.0) after_d

-- What the calls return, with A's `Save` at `t6` and D's at `t7`.
module _ (j : AnalysisJob) (lease t0 t1 t2 t3 t4 t5 t6 t7 : ℕ) (s : Store)
    (passed passed' : List Bool) where
  unfoldable pub saved_by_a : Store × Result QueueError (Unit {0})
  unfolding claimed_by_d save_runs
  saved_by_a =
      save_runs (j.id) 1 t6
        (claimed_by_d (j.id) lease t0 t1 t2 t3 t4 t5 (only_job s (to_validate j))) passed

  unfoldable pub saved_by_d : Store × Result QueueError (Unit {0})
  unfolding saved_by_a save_runs
  saved_by_d = save_runs (j.id) 1 t7 (saved_by_a.0) passed'

  -- Both A and D hold the job by attempt 1, for any times at which the calls come in this order with
  -- A's lease run out at `t1`. A's call `Save` is accepted, with any runs, which A made before the
  -- repair: the job takes the status of A's runs, and D's `Save` for the repaired job is refused.
  pub overtaken_validation_accepted :
      j.next_attempt_at ≤ t0
      → t0 + lease ≤ t1
      → t2 ≤ t3
      → t4 ≤ t5
      → (saved_by_a.1 ≡ ok tt)
        × (map (λ k. k.status) (saved_by_a.0.jobs) ≡ status_after_runs passed ∷ [])
        × (saved_by_d.1 ≡ err lease_lost)
  unfolding saved_by_a saved_by_d save_runs holds set_claimed next_attempt set_finished set_advanced
  overtaken_validation_accepted h0 h1 h2 h3 =
      let same = loop_end j lease t0 t1 t2 t3 t4 t5 s h0 h1 h2 h3 in
      let row = row_d j lease t0 t1 t2 t3 t4 t5 in
      let saved =
        ap (λ x. save_runs (j.id) 1 t6 x passed) same
        ∙ advance-only_job validate (j.id) 1
            (set_finished (status_after_runs passed) (is_review (status_after_runs passed)) t6) s
            row (rw (==_refl (j.id)) refl) in
      let final =
        set_finished (status_after_runs passed) (is_review (status_after_runs passed)) t6 row in
      let lost =
        ap (λ x. save_runs (j.id) 1 t7 (x.0) passed') saved
        ∙ advance-only_job_lost validate (j.id) 1
            (set_finished (status_after_runs passed') (is_review (status_after_runs passed')) t7) s
            final (ground arith) in
      (ap (λ r. r.1) saved, ap (λ r. map (λ k. k.status) (r.0.jobs)) saved, ap (λ r. r.1) lost)
