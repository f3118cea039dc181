-- ===== src/Analysis/Floors.antt =====
-- The attempts at a place of the pipeline before validation, and those of a new claim.
use ai_test_assistant.Prelude.{
  ℕ, suc, ◌≤◌, ◌<◌, ◌≡◌, refl, sym, ap, subst, ◌∙◌, ◌⊎◌, inl, inr, Bool, true, false, false≢true,
  some, List, [], ◌∷◌, arith, All, All-mono, count_p, ==_iff, Bool-cases, Option-cases, ltb, ltb→lt,
  update, All-update_map, Result, ok, err,
}
use ai_test_assistant.Analysis.Model.{AnalysisJob, Store, QueueError, Stage}
use ai_test_assistant.Analysis.Queue.{job_is, next_job, set_claimed, claim_next, holds}
use ai_test_assistant.Analysis.Order.{
  place, stage_place, IsFresh, Moves, claimable-place, stage_place-bound, holds-place,
  next_attempt-IsFresh,
}
use ai_test_assistant.Analysis.Effects.{
  Effect, updates, appends, WellFormed, step-Effect, next_job-All, next_job_row, claims,
}
use ai_test_assistant.Analysis.History.{Reach, here, then_step, Effect-keeps, Reach-WellFormed}

abbrev is_ok : Result QueueError AnalysisJob → Bool
is_ok (ok _) = true
is_ok (err _) = false

abbrev value_of : AnalysisJob → Result QueueError AnalysisJob → AnalysisJob
value_of d (ok a) = a
value_of d (err _) = d

-- What a successful claim did: the row that it took, and the row that it made of it.
unfoldable pub Claimed : Stage → ℕ → ℕ → Store → AnalysisJob → Type 0
Claimed q lease now s a =
    (c : AnalysisJob) × (next_job q now (s.jobs) ≡ some c)
    × (a ≡ set_claimed q lease now c)
    × ((claim_next q lease now s).0.jobs
        ≡ update (job_is (c.id)) (set_claimed q lease now) (s.jobs))

pub claim_next-Claimed :
    (q : Stage) (lease now : ℕ) (s : Store) (a : AnalysisJob)
    → (claim_next q lease now s).1 ≡ ok a
    → Claimed q lease now s a
unfolding claim_next Claimed
claim_next-Claimed q lease now s a h = elim (Option-cases (next_job q now (s.jobs))) [
  | inl e ↦ absurd (false≢true (ap is_ok (rw (claim_next, e) at h)))
  | inr (c, e) ↦ (c, e, sym (ap (value_of a) (rw (claim_next, e) at h)), rw (claim_next, e) refl)
]

-- No row of the job is behind this attempt at this place.
unfoldable pub AtLeast : ℕ → ℕ → ℕ → AnalysisJob → Type 0
AtLeast id i n j =
    j.id ≡ id → (i < place (j.status)) ⊎ ((place (j.status) ≡ i) × (n ≤ j.attempt_count))

ltb-false : (a b : ℕ) → ltb a b ≡ false → b ≤ a
ltb-false a b h = ground arith

same_place :
    (i n : ℕ) (j k : AnalysisJob)
    → i < 4
    → Moves j k
    → place (j.status) ≡ i
    → n ≤ j.attempt_count
    → place (k.status) ≤ i
    → (place (k.status) ≡ i) × (n ≤ k.attempt_count)
unfolding Moves
same_place i n j k b m p q r =
    let attempts = m.3 (omega (arith, b, r)) (omega (arith, p, r, m.2)) in
    (omega (arith, p, r, m.2), omega (arith, q, attempts))

Moves-AtLeast :
    (id i n : ℕ) → i < 4 → (j k : AnalysisJob) → Moves j k → AtLeast id i n j → AtLeast id i n k
unfolding Moves AtLeast
Moves-AtLeast id i n b j k m h e = elim (h (m.0 ∙ e)) [
  | inl up ↦ inl (omega (arith, up, m.2))
  | inr both ↦ elim (Bool-cases (ltb i (place (k.status)))) [
    | inl g ↦ inl (ltb→lt i (place (k.status)) g)
    | inr g ↦ inr (same_place i n j k b m (both.0) (both.1) (ltb-false i (place (k.status)) g))
  ]
]

Effect-next_id : {s t : Store} → Effect s t → s.next_id ≤ t.next_id
Effect-next_id (updates p f e n m) = omega (arith, n)
Effect-next_id (appends j e n i k c) = omega (arith, n)

pub Reach-AtLeast :
    (id i n : ℕ) {s t : Store}
    → i < 4
    → WellFormed s
    → id < s.next_id
    → Reach s t
    → All (AtLeast id i n) (s.jobs)
    → All (AtLeast id i n) (t.jobs) × (id < t.next_id)
unfolding AtLeast
Reach-AtLeast id i n b w l here h = (h, l)
Reach-AtLeast id i n b w l (then_step r p) h =
    let before = Reach-AtLeast id i n b w l r h in
    let w' = Reach-WellFormed w r in
    let effect = step-Effect w' p in
    (
      Effect-keeps (AtLeast id i n) (Moves-AtLeast id i n b) effect
          (λ j e f. absurd (omega (arith, e, f, before.1))) (before.0),
      omega (arith, before.1, Effect-next_id effect),
    )

claimed_id :
    (q : Stage) (lease now : ℕ) (c a x : AnalysisJob)
    → a ≡ set_claimed q lease now c
    → x.id ≡ a.id
    → job_is (c.id) x ≡ true
unfolding set_claimed
claimed_id q lease now c a x same i = (==_iff (x.id) (c.id)).1 (i ∙ ap (λ y. y.id) same)

-- After a claim, the rows of the claimed job are the row that was returned.
claimed_rows :
    (q : Stage) (lease now : ℕ) (s : Store) (a : AnalysisJob)
    → WellFormed s
    → (claim_next q lease now s).1 ≡ ok a
    → All (λ j. j.id ≡ a.id → j ≡ a) ((claim_next q lease now s).0.jobs)
unfolding Claimed
claimed_rows q lease now s a w h =
    let (c, e, same, rows) = claim_next-Claimed q lease now s a h in
    subst (All (λ j. j.id ≡ a.id → j ≡ a)) (sym rows) (
      All-update_map (λ j. job_is (c.id) j ≡ true → j ≡ c) (λ j. j.id ≡ a.id → j ≡ a)
        (job_is (c.id)) (set_claimed q lease now) (s.jobs)
        (λ x hx. elim (Bool-cases (job_is (c.id) x)) [
          | inl t ↦ rw t (λ _. ap (set_claimed q lease now) (hx t) ∙ sym same)
          | inr f ↦ rw f (λ i. absurd (false≢true (sym f ∙ claimed_id q lease now c a x same i)))
        ])
        (next_job_row q now s c w e))

claimed_place :
    (q : Stage) (lease now : ℕ) (s : Store) (a : AnalysisJob)
    → (claim_next q lease now s).1 ≡ ok a
    → place (a.status) ≡ stage_place q
unfolding Claimed set_claimed
claimed_place q lease now s a h =
    ap (λ x. place (x.status)) ((claim_next-Claimed q lease now s a h).2)

-- The row that a claim returned is a lower bound from then on.
pub claimed_floor :
    (q : Stage) (lease now : ℕ) (s : Store) (a : AnalysisJob) (m : ℕ)
    → WellFormed s
    → (claim_next q lease now s).1 ≡ ok a
    → m ≤ a.attempt_count
    → All (AtLeast (a.id) (stage_place q) m) ((claim_next q lease now s).0.jobs)
      × (a.id < (claim_next q lease now s).0.next_id)
unfolding AtLeast Claimed WellFormed set_claimed
claimed_floor q lease now s a m w h l =
    let (c, e, same, rows) = claim_next-Claimed q lease now s a h in
    let known = (next_job-All (λ j. j.id < s.next_id) q now (s.jobs) c (w.1) e).0 in
    let grows = Effect-next_id (step-Effect {s = s} w (claims q lease now)) in
    (
      All-mono _ _ ((claim_next q lease now s).0.jobs)
          (λ j f i. inr (
            ap (λ y. place (y.status)) (f i) ∙ claimed_place q lease now s a h,
            subst (λ y. m ≤ y.attempt_count) (sym (f i)) l,
          ))
          (claimed_rows q lease now s a w h),
      omega (arith, known, grows, ap (λ y. y.id) same),
    )

-- A claim's attempt is beyond every attempt that the job had at this place.
pub claim_above :
    (q : Stage) (lease now : ℕ) (s : Store) (a : AnalysisJob) (n : ℕ)
    → WellFormed s
    → (claim_next q lease now s).1 ≡ ok a
    → All (AtLeast (a.id) (stage_place q) n) (s.jobs)
    → n < a.attempt_count
unfolding Claimed WellFormed AtLeast set_claimed
claim_above q lease now s a n w h k =
    let (c, e, same, rows) = claim_next-Claimed q lease now s a h in
    let fresh = next_job-All IsFresh q now (s.jobs) c (w.2) e in
    let at_place = claimable-place q now c (fresh.1) in
    let bound = subst (λ p. p < 5) (sym at_place) (stage_place-bound q) in
    let attempt = ap (λ y. y.attempt_count) same ∙ next_attempt-IsFresh c bound (fresh.0) in
    elim ((next_job-All (AtLeast (a.id) (stage_place q) n) q now (s.jobs) c k e).0
      (sym (ap (λ y. y.id) same))) [
        | inl up ↦ absurd (omega (arith, up, at_place))
        | inr both ↦ omega (arith, both.1, attempt)
      ]

behind :
    (q : Stage) (id n : ℕ) (j : AnalysisJob)
    → AtLeast id (stage_place q) (suc n) j
    → ¬ (holds q id n j ≡ true)
unfolding AtLeast holds
behind q id n j h e =
    let parts : (j.id ≡ id) × (j.attempt_count ≡ n) = ground (arith, e, ==_iff (j.id) id) in
    elim (h (parts.0)) [
      | inl up ↦ absurd (omega (arith, up, holds-place q id n j e))
      | inr both ↦ absurd (omega (arith, both.1, parts.1))
    ]

-- The row of the job has left this attempt behind: nothing holds it any more.
pub not_held :
    (q : Stage) (id n : ℕ) (js : List AnalysisJob)
    → All (AtLeast id (stage_place q) (suc n)) js
    → count_p (holds q id n) js ≡ 0
unfolding AtLeast
not_held q id n [] h = refl
not_held q id n (j ∷ js) h = elim (Bool-cases (holds q id n j)) [
  | inl e ↦ absurd (behind q id n j (h.0) e)
  | inr e ↦ rw e (not_held q id n js (h.1))
]
