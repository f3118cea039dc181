-- ===== src/Workflow/Counted.antt =====
-- What the loop on the generation units reports (backend/internal/workflow/generation_units.go).
use Prim.Native.String.{String}
use ai_test_assistant.Prelude.{
  ℕ, ◌+◌, ◌≡◌, refl, Bool, true, false, not, ap, subst, count_p, Bool-cases, List, [], ◌∷◌, ◌⊎◌,
  inl, inr, ok, Result-cases, arith,
}
use ai_test_assistant.Workflow.Model.{JobUnit, JobView, Store, UnitKey}
use ai_test_assistant.Workflow.Rows.{unit_succeeded}
use ai_test_assistant.Workflow.Errors.{ProcessError}
use ai_test_assistant.Workflow.Finish.{GenerationOutput}
use ai_test_assistant.Workflow.Generation.{begin_generation_unit, fail_generation_unit}
use ai_test_assistant.Workflow.Units.{
  Generated, proposals, stopped, broken, add_completed, add_failed, process_units,
}

Generated-cases :
    (a : Generated)
    → ((n : ℕ) × (a ≡ proposals n))
      ⊎ (((e : ProcessError) × (a ≡ stopped e)) ⊎ ((e : ProcessError) × (a ≡ broken e)))
Generated-cases (proposals n) = inl (n, refl)
Generated-cases (stopped e) = inr (inl (e, refl))
Generated-cases (broken e) = inr (inr (e, refl))

-- What became of one unit: done with this many proposals, or broken.
pub data Mark : Type 0 where
  done : ℕ → Mark
  failed : Mark

unfoldable pub is_done : Mark → Bool
is_done (done n) = true
is_done failed = false

-- The proposals of the units that are done.
unfoldable pub proposals_of : List Mark → ℕ
proposals_of [] = 0
proposals_of (done n ∷ ms) = n + proposals_of ms
proposals_of (failed ∷ ms) = proposals_of ms

module _ (now : ℕ → ℕ) (generate : UnitKey → JobUnit → Store → Store × Generated)
    (saved : String → ℕ) where
  -- What the calls for one key from one store answer, and what they leave: a unit that had succeeded is not
  -- generated again, one whose generation answers proposals is done, and one whose generation breaks is
  -- failed, with its failure stored.
  pub data Ran (c : JobView) (k : UnitKey) (s : Store) : Mark → Store → Type 0 where
    was_done :
        (i : ℕ) (u : JobUnit) (t : Store)
        → begin_generation_unit c k (now i) s ≡ (t, ok u)
        → unit_succeeded u.status ≡ true
        → Ran c k s (done (saved u.output_ref)) t
    was_generated :
        (i n : ℕ) (u : JobUnit) (t r : Store)
        → begin_generation_unit c k (now i) s ≡ (t, ok u)
        → unit_succeeded u.status ≡ false
        → generate k u t ≡ (r, proposals n)
        → Ran c k s (done n) r
    was_broken :
        (i : ℕ) (e : ProcessError) (u : JobUnit) (t r v : Store)
        → begin_generation_unit c k (now i) s ≡ (t, ok u)
        → unit_succeeded u.status ≡ false
        → generate k u t ≡ (r, broken e)
        → fail_generation_unit c u e (now (i + 1)) r ≡ (v, ok tt)
        → Ran c k s failed v

  -- One mark for each key, in their order, each from the store that the one before left.
  pub data RanAll (c : JobView) : List UnitKey → Store → List Mark → Store → Type 0 where
    nothing_left : (s : Store) → RanAll c [] s [] s
    ran_one :
        (k : UnitKey) (ks : List UnitKey) (m : Mark) (ms : List Mark) (s t r : Store)
        → Ran c k s m t
        → RanAll c ks t ms r
        → RanAll c (k ∷ ks) s (m ∷ ms) r

  -- What the marks add to an output.
  abbrev pub Adds : GenerationOutput → List Mark → GenerationOutput → Type 0
  Adds out ms result =
      (result.completed_units ≡ out.completed_units + count_p is_done ms)
      × (result.failed_units ≡ out.failed_units + count_p (λ m. not (is_done m)) ms)
      × (result.proposal_count ≡ out.proposal_count + proposals_of ms)

  Runs : JobView → List UnitKey → GenerationOutput → GenerationOutput → Store → Store → Type 0
  Runs c ks out result s t = (ms : List Mark) × RanAll c ks s ms t × Adds out ms result

  -- One unit, then the rest.
  Runs-completed :
      (c : JobView) (k : UnitKey) (ks : List UnitKey) (n : ℕ) (out result : GenerationOutput)
      (s t r : Store)
      → Ran c k s (done n) t
      → Runs c ks (add_completed n out) result t r
      → Runs c (k ∷ ks) out result s r
  unfolding Runs add_completed is_done proposals_of
  Runs-completed c k ks n out result s t r first (ms, rest, a) = (
    done n ∷ ms,
    ran_one k ks (done n) ms s t r first rest,
    (omega (arith, a.0), omega (arith, a.1), omega (arith, a.2)),
  )

  Runs-failed :
      (c : JobView) (k : UnitKey) (ks : List UnitKey) (out result : GenerationOutput)
      (s t r : Store)
      → Ran c k s failed t
      → Runs c ks (add_failed out) result t r
      → Runs c (k ∷ ks) out result s r
  unfolding Runs add_failed is_done proposals_of
  Runs-failed c k ks out result s t r first (ms, rest, a) = (
    failed ∷ ms,
    ran_one k ks failed ms s t r first rest,
    (omega (arith, a.0), omega (arith, a.1), omega (arith, a.2)),
  )

  pair_with : {A B : Type 0} (p : A × B) (b : B) → p.1 ≡ b → p ≡ (p.0, b)
  pair_with p b e = ap (λ x. (p.0, x)) e

  -- A loop over unit keys that ends without an error has run the keys in their order, each once, from the
  -- store that the one before left: a key whose unit had succeeded was not generated again and counts as
  -- completed with its stored number of proposals, one whose generation answered proposals counts as
  -- completed with these, and one whose generation broke counts as failed, with its failure stored. The
  -- output is the one that it started with plus the units and the proposals counted.
  pub units_counted_once :
      (c : JobView) (i : ℕ) (keys : List UnitKey) (out result : GenerationOutput) (s t : Store)
      → process_units now generate saved c i keys out s ≡ (t, ok result)
      → (ms : List Mark) × RanAll c keys s ms t × Adds out ms result
  unfolding process_units Runs proposals_of
  units_counted_once c i [] out result s t h =
      let a : s ≡ t = ap (λ x. x.0) h in
      let b : out ≡ result = ground (arith, h) in
      (
        [],
        subst (RanAll c [] s []) a (nothing_left s),
        subst (Adds out []) b (omega arith, omega arith, omega arith),
      )
  units_counted_once c i (k ∷ ks) out result s t h =
      let b = begin_generation_unit c k (now i) s in
      elim (Result-cases b.1) [
        | inr (e, p) ↦ absurd (ground (arith, p))
        | inl (u, p) ↦ elim (Bool-cases (unit_succeeded u.status)) [
          | inl q ↦
              Runs-completed c k ks (saved u.output_ref) out result s b.0 t
                (was_done i u b.0 (pair_with b (ok u) p) q)
                (units_counted_once c (i + 1) ks (add_completed (saved u.output_ref) out) result b.0
                  t (ground (arith, p, q)))
          | inr q ↦
              (let g = generate k u b.0 in
                elim (Generated-cases g.1) [
                  | inl (n, r) ↦
                      Runs-completed c k ks n out result s g.0 t
                        (was_generated i n u b.0 g.0 (pair_with b (ok u) p) q
                          (pair_with g (proposals n) r))
                        (units_counted_once c (i + 1) ks (add_completed n out) result g.0 t
                          (ground (arith, p, q, r)))
                  | inr (inl (e, r)) ↦ absurd (ground (arith, p, q, r))
                  | inr (inr (e, r)) ↦
                      (let f = fail_generation_unit c u e (now (i + 1)) g.0 in
                        elim (Result-cases f.1) [
                          | inr (x, y) ↦ absurd (ground (arith, p, q, r, y))
                          | inl (x, y) ↦
                              Runs-failed c k ks out result s f.0 t
                                (was_broken i e u b.0 g.0 f.0 (pair_with b (ok u) p) q
                                  (pair_with g (broken e) r) (pair_with f (ok tt) y))
                                (units_counted_once c (i + 2) ks (add_failed out) result f.0 t
                                  (ground (arith, p, q, r, y)))
                        ])
                ])
        ]
      ]
