-- ===== src/Workflow/Picking.antt =====
-- Which job `ClaimNext` takes, and what it does when there is none.
use ai_test_assistant.Prelude.{
  ℕ, suc, ◌≡◌, refl, ap, true, false, ◌&&◌, none, some, List, [], ◌∷◌, All, update, find, ok, err,
  arith,
}
use ai_test_assistant.Workflow.Model.{Job, JobView, Store, not_found}
use ai_test_assistant.Workflow.Rows.{job_is}
use ai_test_assistant.Workflow.Claim.{
  sweep, first_candidate, claimable, before, set_claimed, claim_next,
}
use ai_test_assistant.Workflow.Candidate.{first_candidate_found, first_candidate_oldest}
use ai_test_assistant.Workflow.Consistency.{IsConsistent, sweep-IsConsistent}
use ai_test_assistant.Workflow.Fencing.{claim_next-Claimed}

-- What a successful claim did: the row that it took, as the sweep left it.
abbrev pub Took : ℕ → ℕ → Store → Store → JobView → Job → Type 0
Took lease now s t c row =
    (find (λ j. job_is row.id j && claimable now j) (sweep now s).jobs ≡ some row)
    × All (λ j. claimable now j ≡ true → before j row ≡ false) (sweep now s).jobs
    × (c.job ≡ set_claimed lease now row)
    × (t.jobs ≡ update (job_is row.id) (set_claimed lease now) (sweep now s).jobs)

-- A successful `ClaimNext` took a claimable row that no claimable row precedes in the order of
-- next_attempt_at, created_at and id, set it to the claim that it returns, and changed no other
-- row after the sweep of expired jobs.
pub claim_takes_oldest :
    (lease now : ℕ) (s t : Store) (c : JobView)
    → IsConsistent s
    → claim_next lease now s ≡ (t, ok c)
    → (row : Job) × Took lease now s t c row
claim_takes_oldest lease now s t c h e =
    let d = claim_next-Claimed lease now s t c e in
    let w = sweep-IsConsistent now s h in
    (
      d.row,
      (
        first_candidate_found now (sweep now s).jobs d.row d.picked (w.one_job d.row.id),
        first_candidate_oldest now (sweep now s).jobs d.row d.picked,
        ap (λ v. v.job) d.view_after,
        ap (λ v. v.jobs) d.store_after,
      ),
    )

no_candidate :
    (now : ℕ) (js : List Job)
    → All (λ j. claimable now j ≡ false) js
    → first_candidate now js ≡ none
unfolding first_candidate
no_candidate now [] h = refl
no_candidate now (j ∷ js) h = rw (h.0, no_candidate now js h.1) refl

-- Where no row is claimable after the sweep, `ClaimNext` answers ErrNotFound and stores nothing: the
-- sweep of the exhausted jobs is rolled back with it, however many there are.
pub idle_claim_undoes_sweep :
    (lease now : ℕ) (s : Store)
    → All (λ j. claimable now j ≡ false) (sweep now s).jobs
    → claim_next (suc lease) now s ≡ (s, err not_found)
unfolding claim_next
idle_claim_undoes_sweep lease now s h = rw (no_candidate now (sweep now s).jobs h) (ground arith)
