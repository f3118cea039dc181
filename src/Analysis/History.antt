-- ===== src/Analysis/History.antt =====
-- The histories of the analysis pipeline: every operation of its workers and of the intake, by any
-- client, at any time and in any order. A transaction is one step, as under row locks.
use ai_test_assistant.Prelude.{
  ℕ, ◌≤◌, ◌<◌, ◌≡◌, refl, sym, subst, ◌∙◌, inl, inr, Bool, true, List, [], ◌∷◌, ◌++◌, arith, All,
  All-mono, All-append, count_p, count_p-append, ◌==◌, ==_iff, Bool-cases, update, All-update_when,
}
use ai_test_assistant.Analysis.Model.{AnalysisJob, Store}
use ai_test_assistant.Analysis.Queue.{job_is}
use ai_test_assistant.Analysis.Order.{IsFresh, Moves}
use ai_test_assistant.Analysis.Effects.{Step, WellFormed, Effect, updates, appends, step-Effect}

pub data Reach (s : Store) : Store → Type 0 where
  here : Reach s s
  then_step : {t u : Store} → Reach s t → Step t u → Reach s u

pub Moves-id : (j k : AnalysisJob) → Moves j k → j.id ≡ k.id
unfolding Moves
Moves-id j k m = m.0

Moves-IsFresh : (j k : AnalysisJob) → Moves j k → IsFresh k
unfolding Moves
Moves-IsFresh j k m = m.4

-- An update keeps what its moves keep of each row.
module _ (P : AnalysisJob → Type 0) (keeps : (j k : AnalysisJob) → Moves j k → P j → P k) where
  updates_keep :
      (js ks : List AnalysisJob) (p : AnalysisJob → Bool) (f : AnalysisJob → AnalysisJob)
      → ks ≡ update p f js
      → All (λ j. p j ≡ true → Moves j (f j)) js
      → All P js
      → All P ks
  updates_keep js ks p f e m h = subst (All P) (sym e) (
      All-update_when P (λ j. p j ≡ true → Moves j (f j)) p f js
        (λ j a b. elim (Bool-cases (p j)) [ inl c ↦ rw c (keeps j (f j) (b c) a) | inr c ↦ rw c a ])
        h m)

  pub Effect-keeps :
      {s t : Store}
      → Effect s t
      → ((j : AnalysisJob) → j.id ≡ s.next_id → P j)
      → All P (s.jobs)
      → All P (t.jobs)
  Effect-keeps {s} {t} (updates p f e n m) new h = updates_keep (s.jobs) (t.jobs) p f e m h
  Effect-keeps {s} (appends j e n i k c) new h =
      subst (All P) (sym e) (All-append P (s.jobs) (j ∷ []) h (new j i, tt))

count_ids :
    (id : ℕ) (p : AnalysisJob → Bool) (f : AnalysisJob → AnalysisJob) (js : List AnalysisJob)
    → All (λ j. p j ≡ true → Moves j (f j)) js
    → count_p (job_is id) (update p f js) ≡ count_p (job_is id) js
unfolding update
count_ids id p f [] m = refl
count_ids id p f (j ∷ js) m = elim (Bool-cases (p j)) [
  | inl e ↦ rw (e, sym (Moves-id j (f j) (m.0 e)), count_ids id p f js (m.1)) refl
  | inr e ↦ rw (e, count_ids id p f js (m.1)) refl
]

-- An id that no row has reached yet.
count_below : (n : ℕ) (js : List AnalysisJob) → All (λ j. j.id < n) js → count_p (job_is n) js ≡ 0
count_below n [] h = refl
count_below n (j ∷ js) h = ground (arith, h.0, count_below n js (h.1))

append_row :
    (id next : ℕ) (j : AnalysisJob) (js : List AnalysisJob)
    → j.id ≡ next
    → All (λ k. k.id < next) js
    → count_p (job_is id) js ≤ 1
    → count_p (job_is id) (js ++ (j ∷ [])) ≤ 1
append_row id next j js i below one =
    let total = count_p-append (job_is id) js (j ∷ []) in
    elim (Bool-cases (j.id == id)) [
      | inl e ↦
          let same = (==_iff (j.id) id).0 e in
          let none_yet = count_below next js below in
          let none_here = subst (λ x. count_p (job_is x) js ≡ 0) (sym i ∙ same) none_yet in
          ground (arith, total, none_here, e)
      | inr e ↦ ground (arith, total, one, e)
    ]

Effect-WellFormed : {s t : Store} → Effect s t → WellFormed s → WellFormed t
unfolding WellFormed
Effect-WellFormed {s} {t} (updates p f e n m) w = (
  λ id.
      subst (λ js. count_p (job_is id) js ≤ 1) (sym e)
        (omega (arith, count_ids id p f (s.jobs) m, w.0 id)),
  subst (λ n'. All (λ j. j.id < n') (t.jobs)) (sym n)
      (updates_keep (λ j. j.id < s.next_id)
        (λ a b v h. subst (λ x. x < s.next_id) (Moves-id a b v) h) (s.jobs) (t.jobs) p f e m (w.1)),
  updates_keep IsFresh (λ a b v _. Moves-IsFresh a b v) (s.jobs) (t.jobs) p f e m (w.2),
)
Effect-WellFormed {s} {t} (appends j e n i k c) w = (
  λ id.
      subst (λ js. count_p (job_is id) js ≤ 1) (sym e)
        (append_row id (s.next_id) j (s.jobs) i (w.1) (w.0 id)),
  subst (All (λ x. x.id < t.next_id)) (sym e) (
      All-append _ (s.jobs) (j ∷ []) (All-mono _ _ (s.jobs) (λ x h. omega (arith, h, n)) (w.1))
        (omega (arith, i, n), tt)),
  subst (All IsFresh) (sym e) (All-append IsFresh (s.jobs) (j ∷ []) (w.2) (k, tt)),
)

pub Step-WellFormed : {s t : Store} → WellFormed s → Step s t → WellFormed t
Step-WellFormed w h = Effect-WellFormed (step-Effect w h) w

-- After every history of the pipeline's operations, one row at most has each id, every id is below the
-- next one, and no job that waits for its first attempt at a stage has an attempt counted, if this holds
-- before.
pub Reach-WellFormed : {s t : Store} → WellFormed s → Reach s t → WellFormed t
Reach-WellFormed w here = w
Reach-WellFormed w (then_step r h) = Step-WellFormed (Reach-WellFormed w r) h
