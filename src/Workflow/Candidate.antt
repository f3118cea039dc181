-- ===== src/Workflow/Candidate.antt =====
-- Which job `ClaimNext` picks.
use ai_test_assistant.Prelude.{
  ℕ, ◌≤◌, ◌≡◌, refl, sym, subst, ◌∙◌, true, false, false≢true, ◌&&◌, ◌⊎◌, inl, inr, Option, none,
  some, List, [], ◌∷◌, All, All-mono, count_p, find, arith, ==_refl, find-and_pos, Bool-cases,
  Option-cases,
}
use ai_test_assistant.Workflow.Model.{Job}
use ai_test_assistant.Workflow.Rows.{job_is}
use ai_test_assistant.Workflow.Claim.{claimable, before, earlier, first_candidate}

earlier_cases : (j : Job) (r : Option Job) → (earlier j r ≡ j) ⊎ (r ≡ some (earlier j r))
unfolding earlier
earlier_cases j none = inl refl
earlier_cases j (some k) = ground arith

found_later :
    (now : ℕ) (j : Job) (js : List Job) (c : Job)
    → count_p (job_is c.id) (j ∷ js) ≤ 1
    → find (λ x. job_is c.id x && claimable now x) js ≡ some c
    → find (λ x. job_is c.id x && claimable now x) (j ∷ js) ≡ some c
unfolding find
found_later now j js c h e = ground (arith, find-and_pos (job_is c.id) (claimable now) js c e)

-- The row that `first_candidate` returns is a claimable row of the table, found by its id.
pub first_candidate_found :
    (now : ℕ) (js : List Job) (c : Job)
    → first_candidate now js ≡ some c
    → count_p (job_is c.id) js ≤ 1
    → find (λ j. job_is c.id j && claimable now j) js ≡ some c
unfolding first_candidate find
first_candidate_found now [] c e h = cc
first_candidate_found now (j ∷ js) c e h =
    let later = λ (r : first_candidate now js ≡ some c).
      found_later now j js c h (first_candidate_found now js c r (ground arith)) in
    elim (Bool-cases (claimable now j)) [
      | inl t ↦ elim (earlier_cases j (first_candidate now js)) [
        | inl p ↦ (let same : j ≡ c = ground arith in rw (← same, t, ==_refl j.id))
        | inr p ↦ later (ground arith)
      ]
      | inr f ↦ later (ground arith)
    ]

before_asym : (a b : Job) → before a b ≡ true → before b a ≡ false
unfolding before
before_asym a b h = ground arith

before_refl : (a : Job) → before a a ≡ false
unfolding before
before_refl a = ground arith

-- The order is negatively transitive.
not_before_trans : (a b c : Job) → before a b ≡ false → before b c ≡ false → before a c ≡ false
unfolding before
not_before_trans a b c h k = ground arith

-- With no candidate no row is claimable.
pub first_candidate-none :
    (now : ℕ) (js : List Job)
    → first_candidate now js ≡ none
    → All (λ j. claimable now j ≡ false) js
unfolding first_candidate
first_candidate-none now [] e = tt
first_candidate-none now (j ∷ js) e = elim (Bool-cases (claimable now j)) [
  | inl t ↦ absurd (ground arith)
  | inr f ↦ (f, first_candidate-none now js (ground arith))
]

earlier_first :
    (j k : Job) → (before j (earlier j (some k)) ≡ false) × (before k (earlier j (some k)) ≡ false)
unfolding earlier
earlier_first j k = ground (arith, before_asym k j, before_refl j, before_refl k)

-- No claimable row comes before the one that is picked.
pub first_candidate_oldest :
    (now : ℕ) (js : List Job) (c : Job)
    → first_candidate now js ≡ some c
    → All (λ j. claimable now j ≡ true → before j c ≡ false) js
unfolding first_candidate
first_candidate_oldest now [] c e = tt
first_candidate_oldest now (j ∷ js) c e = elim (Bool-cases (claimable now j)) [
  | inr f ↦ (λ t. absurd (false≢true (sym f ∙ t)), first_candidate_oldest now js c (ground arith))
  | inl t ↦ elim (Option-cases (first_candidate now js)) [
    | inl none_left ↦
        (let same : earlier j none ≡ c = ground arith in
          (
            λ _. rw (← same) (unfold earlier in before_refl j),
            All-mono _ _ js (λ x f u. absurd (false≢true (sym f ∙ u)))
                (first_candidate-none now js none_left),
          ))
    | inr (k, found) ↦
        (let same : earlier j (some k) ≡ c = ground arith in
          (
            λ _. subst (λ d. before j d ≡ false) same (earlier_first j k).0,
            All-mono _ _ js
                (λ x h u.
                  not_before_trans x k c (h u)
                    (subst (λ d. before k d ≡ false) same (earlier_first j k).1))
                (first_candidate_oldest now js k found),
          ))
  ]
]
