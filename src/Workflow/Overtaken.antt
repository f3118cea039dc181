-- ===== src/Workflow/Overtaken.antt =====
-- When another claim has overtaken a claim of the same job (backend/internal/workflow/repository.go).
use ai_test_assistant.Prelude.{ℕ, ◌<◌, ◌≡◌, sym, ap, subst, ◌∙◌, All-find, find_sound, arith, ok}
use ai_test_assistant.Workflow.Model.{JobView, Store}
use ai_test_assistant.Workflow.Rows.{unit_attempt}
use ai_test_assistant.Workflow.Claim.{sweep, claims_unit, set_claimed, set_unit_claimed, claim_next}
use ai_test_assistant.Workflow.Candidate.{first_candidate_found}
use ai_test_assistant.Workflow.Consistency.{IsConsistent}
use ai_test_assistant.Workflow.Floor.{Floor, JobFloor, UnitFloor, floor, sweep-Floor}
use ai_test_assistant.Workflow.Fencing.{claim_next-Claimed, claimed-Floor}
use ai_test_assistant.Workflow.Step.{Reach, Reach_keeps}

-- A later claim has larger counters.
claim_above :
    (id a r lease now : ℕ) (s t : Store) (d : JobView)
    → Floor id a r s
    → claim_next lease now s ≡ (t, ok d)
    → d.job.id ≡ id
    → (a < unit_attempt d) × (r < d.job.revision)
unfolding set_claimed set_unit_claimed claims_unit
claim_above id a r lease now s t d h e same =
    let v = claim_next-Claimed lease now s t d e in
    let w = sweep-Floor id a r now s h in
    let found =
      first_candidate_found now (sweep now s).jobs v.row v.picked (w.keys.one_job v.row.id) in
    let row = All-find (JobFloor id r) _ (sweep now s).jobs v.row w.rows found in
    let unit = All-find (UnitFloor id a) _ (sweep now s).units v.unit w.attempts v.unit_found in
    let claims = find_sound (claims_unit v.row.id) (sweep now s).units v.unit v.unit_found in
    let same_row : v.row.id ≡ id = ap (λ x. x.job.id) (sym v.view_after) ∙ same in
    subst (λ x. (a < unit_attempt x) × (r < x.job.revision)) (sym v.view_after)
      (ground (arith, row, unit, claims, same_row))

claimed_revision :
    (lease now : ℕ) (s t : Store) (c : JobView)
    → claim_next lease now s ≡ (t, ok c)
    → 0 < c.job.revision
unfolding set_claimed
claimed_revision lease now s t c e =
    let d = claim_next-Claimed lease now s t c e in
    subst (λ v. 0 < v.job.revision) (sym d.view_after) (omega arith)

-- The job's counters have passed those of the claim.
pub record Overtaken (c : JobView) (s : Store) : Type 0 where
  pub attempt : ℕ
  pub revision : ℕ
  pub was_claimed : 0 < c.job.revision
  pub later_attempt : unit_attempt c < attempt
  pub later_revision : c.job.revision < revision
  pub floor_of : Floor c.job.id attempt revision s

-- A second claim of the job overtakes the first, for good.
pub overtaken :
    (lease later t0 t1 : ℕ) (s s1 s2 s3 s4 : Store) (c d : JobView)
    → IsConsistent s
    → claim_next lease t0 s ≡ (s1, ok c)
    → Reach s1 s2
    → claim_next later t1 s2 ≡ (s3, ok d)
    → d.job.id ≡ c.job.id
    → Reach s3 s4
    → Overtaken c s4
overtaken lease later t0 t1 s s1 s2 s3 s4 c d h first r again same rest =
    let f =
      Reach_keeps (Floor c.job.id (unit_attempt c) c.job.revision)
        (floor c.job.id (unit_attempt c) c.job.revision) (claimed-Floor lease t0 s s1 c h first)
        r in
    let above =
      claim_above c.job.id (unit_attempt c) c.job.revision later t1 s2 s3 d f again same in
    record {
      attempt = unit_attempt d;
      revision = d.job.revision;
      was_claimed = claimed_revision lease t0 s s1 c first;
      later_attempt = above.0;
      later_revision = above.1;
      floor_of =
          Reach_keeps (Floor c.job.id (unit_attempt d) d.job.revision)
            (floor c.job.id (unit_attempt d) d.job.revision)
            (subst (λ id. Floor id (unit_attempt d) d.job.revision s3) same
              (claimed-Floor later t1 s2 s3 d f.keys again))
            rest;
    }
