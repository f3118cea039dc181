-- ===== src/Workflow/Fencing.antt =====
-- What a successful claim writes: its counters are a floor for the job from then on.

use ai_test_assistant.Prelude.{
  ℕ, ◌+◌, ◌<◌, ◌≡◌, sym, subst, ◌∙◌, true, false≢true, ◌&&◌, some, [], ◌∷◌, All, All-find,
  All-update_map, find, one_row, find_sound, apply_if, arith, Option-cases, inl, inr, Bool-cases,
  ok,
}
use ai_test_assistant.Workflow.Model.{Job, JobUnit, JobView, Store}
use ai_test_assistant.Workflow.Rows.{
  job_is, is_native, is_operation_unit, unit_claimable, unit_attempt,
}
use ai_test_assistant.Workflow.Claim.{
  sweep, first_candidate, claimable, claims_unit, set_claimed, set_unit_claimed, claim_next,
  no_usage,
}
use ai_test_assistant.Workflow.Candidate.{first_candidate_found}
use ai_test_assistant.Workflow.Cases.{claimed}
use ai_test_assistant.Workflow.Consistency.{IsConsistent, sweep-IsConsistent, consistent}
use ai_test_assistant.Workflow.Floor.{Floor, JobFloor, UnitFloor}

-- What a claim of a job returns for its row and its unit.
abbrev view_of : ℕ → ℕ → Job → JobUnit → JobView
view_of lease now k u = record {
  job = set_claimed lease now k;
  units = set_unit_claimed now u ∷ [];
  usage = no_usage;
}

-- A successful claim: the candidate, its unit, and the store that it leaves.
pub record Claimed (lease now : ℕ) (s t : Store) (c : JobView) : Type 0 where
  pub row : Job
  pub unit : JobUnit
  pub picked : first_candidate now (sweep now s).jobs ≡ some row
  pub unit_found : find (claims_unit row.id) (sweep now s).units ≡ some unit
  pub store_after : t ≡ claimed lease now row (sweep now s)
  pub view_after : c ≡ view_of lease now row unit

pub claim_next-Claimed :
    (lease now : ℕ) (s t : Store) (c : JobView)
    → claim_next lease now s ≡ (t, ok c)
    → Claimed lease now s t c
unfolding claim_next
claim_next-Claimed lease now s t c e =
    elim (Option-cases (first_candidate now (sweep now s).jobs)) [
      | inl p ↦ absurd (ground arith)
      | inr (k, p) ↦ elim (Option-cases (find (claims_unit k.id) (sweep now s).units)) [
        | inl q ↦ absurd (ground arith)
        | inr (u, q) ↦ record {
          row = k;
          unit = u;
          picked = p;
          unit_found = q;
          store_after = ground arith;
          view_after = ground arith;
        }
      ]
    ]

-- The claimed row and its unit have the counters of the claim.
raised_row :
    (lease now : ℕ) (k j : Job)
    → is_native k.delegate_kind ≡ true
    → (job_is k.id j ≡ true → j ≡ k)
    → JobFloor k.id (k.revision + 1) (apply_if (job_is k.id) (set_claimed lease now) j)
unfolding set_claimed
raised_row lease now k j native same = elim (Bool-cases (job_is k.id j)) [
  | inl e ↦ rw e (
      subst (λ d. JobFloor k.id (k.revision + 1) (set_claimed lease now d)) (sym (same e))
        (unfold set_claimed in λ _. (native, omega arith)))
  | inr e ↦ rw e (λ t. absurd (false≢true (sym e ∙ t)))
]

raised_unit :
    (now id : ℕ) (u v : JobUnit)
    → claims_unit id u ≡ true
    → (is_operation_unit id v ≡ true → v ≡ u)
    → UnitFloor id (u.attempt_count + 1) (apply_if (claims_unit id) (set_unit_claimed now) v)
unfolding claims_unit set_unit_claimed
raised_unit now id u v claimable same = elim (Bool-cases (is_operation_unit id v)) [
  | inl e ↦
      subst
        (λ d.
          UnitFloor id (u.attempt_count + 1) (apply_if (claims_unit id) (set_unit_claimed now) d))
        (sym (same e)) (λ t. ground arith)
  | inr e ↦ λ t. absurd (ground arith)
]

claimed_rows :
    (lease now : ℕ) (s : Store) (k : Job)
    → IsConsistent s
    → first_candidate now s.jobs ≡ some k
    → All (JobFloor k.id (k.revision + 1)) (claimed lease now k s).jobs
unfolding claimable
claimed_rows lease now s k h e =
    let found = first_candidate_found now s.jobs k e (h.one_job k.id) in
    let eligible = find_sound (λ j. job_is k.id j && claimable now j) s.jobs k found in
    All-update_map (λ j. job_is k.id j ≡ true → j ≡ k) (JobFloor k.id (k.revision + 1))
      (job_is k.id) (set_claimed lease now) s.jobs
      (λ j same. raised_row lease now k j (ground arith) same)
      (one_row (job_is k.id) (claimable now) s.jobs k (h.one_job k.id) found)

claimed_units :
    (lease now : ℕ) (s : Store) (k : Job) (u : JobUnit)
    → IsConsistent s
    → find (claims_unit k.id) s.units ≡ some u
    → All (UnitFloor k.id (u.attempt_count + 1)) (claimed lease now k s).units
claimed_units lease now s k u h e =
    All-update_map (λ v. is_operation_unit k.id v ≡ true → v ≡ u)
      (UnitFloor k.id (u.attempt_count + 1)) (claims_unit k.id) _ s.units
      (λ v same. raised_unit now k.id u v (find_sound (claims_unit k.id) s.units u e) same)
      (one_row (is_operation_unit k.id) (λ v. unit_claimable v.status) s.units u (h.one_unit k.id)
        (unfold claims_unit in e))

claimed_known :
    (now : ℕ) (s : Store) (k : Job)
    → IsConsistent s
    → first_candidate now s.jobs ≡ some k
    → k.id < s.next_job_id
claimed_known now s k h e =
    All-find (λ j. j.id < s.next_job_id) (λ j. job_is k.id j && claimable now j) s.jobs k
      h.known_jobs (first_candidate_found now s.jobs k e (h.one_job k.id))

-- The counters of a claim are a floor from then on.
pub claimed-Floor :
    (lease now : ℕ) (s t : Store) (c : JobView)
    → IsConsistent s
    → claim_next lease now s ≡ (t, ok c)
    → Floor c.job.id (unit_attempt c) c.job.revision t
unfolding set_claimed set_unit_claimed
claimed-Floor lease now s t c h e =
    let d = claim_next-Claimed lease now s t c e in
    let w = sweep-IsConsistent now s h in
    subst (λ v. Floor v.job.id (unit_attempt v) v.job.revision t) (sym d.view_after)
      (subst (Floor d.row.id (d.unit.attempt_count + 1) (d.row.revision + 1)) (sym d.store_after)
        (record {
          keys = consistent.on_claim lease now s d.row h d.picked;
          known = claimed_known now (sweep now s) d.row w d.picked;
          rows = claimed_rows lease now (sweep now s) d.row w d.picked;
          attempts = claimed_units lease now (sweep now s) d.row d.unit w d.unit_found;
        }))
