-- ===== src/Analysis/Redelivery.antt =====
-- A webhook that is delivered again (`Enqueue` of backend/internal/job/repository.go).
use Prim.Native.String.{String}
use text.Mathlib.TextPositions.{eq_refl}
use ai_test_assistant.Prelude.{
  ℕ, suc, ◌≡◌, refl, sym, ap, subst, ◌∙◌, inl, inr, Bool, true, false, false≢true, none, some, List,
  [], ◌∷◌, ◌++◌, arith, All, Result, ok, err, ◌=s◌, any_of, find, find_of_any, update, Bool-cases,
  none-ne-some, some-injective, apply_if,
}
use ai_test_assistant.Analysis.Model.{AnalysisJob, EnqueueInput, Store, QueueError}
use ai_test_assistant.Analysis.Intake.{
  has_webhook, new_job, conflicts, insert_job, after_insert, enqueue,
}
use ai_test_assistant.Analysis.Order.{Moves}
use ai_test_assistant.Analysis.Effects.{
  WellFormed, Effect, updates, appends, step-Effect, insert_job-conflicts, enqueues,
}
use ai_test_assistant.Analysis.History.{Reach, here, then_step, Step-WellFormed, Reach-WellFormed}

-- The first job with the webhook is the one with this id.
unfoldable pub Finds : String → ℕ → List AnalysisJob → Type 0
Finds uuid id js = (k : AnalysisJob) × (find (has_webhook uuid) js ≡ some k) × (k.id ≡ id)

Moves-webhook : (j k : AnalysisJob) → Moves j k → (j.id ≡ k.id) × (j.webhook_uuid ≡ k.webhook_uuid)
unfolding Moves
Moves-webhook j k m = (m.0, m.1)

applied :
    (p : AnalysisJob → Bool) (f : AnalysisJob → AnalysisJob) (j : AnalysisJob)
    → (p j ≡ true → Moves j (f j))
    → ((apply_if p f j).id ≡ j.id) × ((apply_if p f j).webhook_uuid ≡ j.webhook_uuid)
applied p f j m = elim (Bool-cases (p j)) [
  | inl t ↦ (let same = Moves-webhook j (f j) (m t) in rw t (sym (same.0), sym (same.1)))
  | inr t ↦ rw t (refl, refl)
]

update-Finds :
    (uuid : String) (id : ℕ) (p : AnalysisJob → Bool) (f : AnalysisJob → AnalysisJob)
    (js : List AnalysisJob)
    → All (λ j. p j ≡ true → Moves j (f j)) js
    → Finds uuid id js
    → Finds uuid id (update p f js)
unfolding Finds find update
update-Finds uuid id p f [] m h = h
update-Finds uuid id p f (j ∷ js) m (k, e, i) =
    let same = applied p f j (m.0) in
    let test = ap (λ x. x =s uuid) (same.1) in
    elim (Bool-cases (has_webhook uuid j)) [
      | inl w ↦ (
        apply_if p f j,
        rw (test, w) refl,
        same.0 ∙ ap (λ x. x.id) (some-injective j k (rw w at e)) ∙ i,
      )
      | inr w ↦
          let rest = update-Finds uuid id p f js (m.1) (k, rw w at e, i) in
          (rest.0, rw (test, w) (rest.1), rest.2)
    ]

append-Finds :
    (uuid : String) (id : ℕ) (js ks : List AnalysisJob)
    → Finds uuid id js
    → Finds uuid id (js ++ ks)
unfolding Finds find
append-Finds uuid id [] ks (k, e, i) = absurd (none-ne-some k e)
append-Finds uuid id (j ∷ js) ks (k, e, i) = elim (Bool-cases (has_webhook uuid j)) [
  | inl w ↦ (k, rw w (rw w at e), i)
  | inr w ↦
      let rest = append-Finds uuid id js ks (k, rw w at e, i) in (rest.0, rw w (rest.1), rest.2)
]

new-Finds :
    (uuid : String) (js : List AnalysisJob) (j : AnalysisJob)
    → any_of (has_webhook uuid) js ≡ false
    → has_webhook uuid j ≡ true
    → find (has_webhook uuid) (js ++ (j ∷ [])) ≡ some j
unfolding find
new-Finds uuid [] j h w = rw w refl
new-Finds uuid (i ∷ js) j h w = elim (Bool-cases (has_webhook uuid i)) [
  | inl e ↦ absurd (false≢true (sym h ∙ rw e refl))
  | inr e ↦ rw e (new-Finds uuid js j (rw e at h) w)
]

Effect-Finds :
    (uuid : String) (id : ℕ) {s t : Store}
    → Effect s t
    → Finds uuid id (s.jobs)
    → Finds uuid id (t.jobs)
Effect-Finds uuid id {s} {t} (updates p f e n m) h =
    subst (Finds uuid id) (sym e) (update-Finds uuid id p f (s.jobs) m h)
Effect-Finds uuid id {s} {t} (appends j e n i k c) h =
    subst (Finds uuid id) (sym e) (append-Finds uuid id (s.jobs) (j ∷ []) h)

Reach-Finds :
    (uuid : String) (id : ℕ) {s t : Store}
    → WellFormed s
    → Reach s t
    → Finds uuid id (s.jobs)
    → Finds uuid id (t.jobs)
Reach-Finds uuid id w here h = h
Reach-Finds uuid id w (then_step r p) h =
    Effect-Finds uuid id (step-Effect (Reach-WellFormed w r) p) (Reach-Finds uuid id w r h)

any_of-find :
    (uuid : String) (js : List AnalysisJob) (k : AnalysisJob)
    → find (has_webhook uuid) js ≡ some k
    → any_of (has_webhook uuid) js ≡ true
unfolding find
any_of-find uuid [] k h = absurd (none-ne-some k h)
any_of-find uuid (j ∷ js) k h = elim (Bool-cases (has_webhook uuid j)) [
  | inl e ↦ rw e refl
  | inr e ↦ rw e (any_of-find uuid js k (rw e at h))
]

after_insert_found :
    (uuid : String) (s : Store) (k : AnalysisJob)
    → find (has_webhook uuid) (s.jobs) ≡ some k
    → after_insert uuid (s, none) ≡ (s, ok (k, false))
unfolding after_insert
after_insert_found uuid s k f = rw (after_insert, f) refl

-- A delivery of a webhook that is there already.
enqueue-conflicts :
    (now : ℕ) (input : EnqueueInput) (s : Store) (k : AnalysisJob)
    → conflicts (input.webhook_uuid) (s.jobs) ≡ true
    → find (has_webhook (input.webhook_uuid)) (s.jobs) ≡ some k
    → enqueue now input s ≡ (s, ok (k, false))
unfolding enqueue
enqueue-conflicts now input s k h f =
    ap (after_insert (input.webhook_uuid)) (insert_job-conflicts now input s h)
    ∙ after_insert_found (input.webhook_uuid) s k f

abbrev id_of : ℕ → Result QueueError (AnalysisJob × Bool) → ℕ
id_of d (ok (j, _)) = j.id
id_of d (err _) = d

conflicts_there :
    (uuid : String) (js : List AnalysisJob)
    → (uuid =s "") ≡ false
    → any_of (has_webhook uuid) js ≡ true
    → conflicts uuid js ≡ true
unfolding conflicts
conflicts_there uuid js h k = rw (h, k) refl

conflicts_not :
    (uuid : String) (js : List AnalysisJob)
    → any_of (has_webhook uuid) js ≡ false
    → conflicts uuid js ≡ false
unfolding conflicts
conflicts_not uuid js k = rw k (ground arith)

enqueue-new :
    (now : ℕ) (input : EnqueueInput) (s : Store)
    → conflicts (input.webhook_uuid) (s.jobs) ≡ false
    → enqueue now input s ≡ (
      record s { jobs = s.jobs ++ (new_job (s.next_id) now input ∷ []); next_id = suc (s.next_id) },
      ok (new_job (s.next_id) now input, true),
    )
unfolding enqueue after_insert insert_job
enqueue-new now input s h = rw (insert_job, h) refl

enqueue-Finds :
    (now : ℕ) (input : EnqueueInput) (s : Store) (a : AnalysisJob) (is_new : Bool)
    → (input.webhook_uuid =s "") ≡ false
    → (enqueue now input s).1 ≡ ok (a, is_new)
    → Finds (input.webhook_uuid) (a.id) ((enqueue now input s).0.jobs)
unfolding enqueue after_insert insert_job Finds conflicts new_job
enqueue-Finds now input s a is_new nonempty h =
    elim (Bool-cases (any_of (has_webhook (input.webhook_uuid)) (s.jobs))) [
      | inl e ↦
          let (k, f) = find_of_any (has_webhook (input.webhook_uuid)) (s.jobs) e in
          let all =
            enqueue-conflicts now input s k
              (conflicts_there (input.webhook_uuid) (s.jobs) nonempty e) f in
          (
            k,
            ap (λ r. find (has_webhook (input.webhook_uuid)) (r.0.jobs)) all ∙ f,
            ap (id_of 0) (sym (ap (λ r. r.1) all) ∙ h),
          )
      | inr e ↦
          let all = enqueue-new now input s (conflicts_not (input.webhook_uuid) (s.jobs) e) in
          let job = new_job (s.next_id) now input in
          (
            job,
            ap (λ r. find (has_webhook (input.webhook_uuid)) (r.0.jobs)) all
                ∙ new-Finds (input.webhook_uuid) (s.jobs) job e (eq_refl (input.webhook_uuid)),
            ap (id_of 0) (sym (ap (λ r. r.1) all) ∙ h),
          )
    ]

-- A webhook with a non-empty UUID was delivered and its job queued, or found to be there already. Then,
-- after any further operations of the workers and the intake in any order, the same webhook is
-- delivered once more, with whatever event: `Enqueue` changes no table, says that the job is not new,
-- and returns the job with the id that it returned the first time.
pub redelivered_webhook :
    (now now' : ℕ) (input input' : EnqueueInput) (s t : Store) (a : AnalysisJob) (is_new : Bool)
    → WellFormed s
    → (input.webhook_uuid =s "") ≡ false
    → (enqueue now input s).1 ≡ ok (a, is_new)
    → Reach (enqueue now input s).0 t
    → input'.webhook_uuid ≡ input.webhook_uuid
    → (k : AnalysisJob) × (enqueue now' input' t ≡ (t, ok (k, false))) × (k.id ≡ a.id)
unfolding Finds
redelivered_webhook now now' input input' s t a is_new w nonempty h r same =
    let first = enqueue-Finds now input s a is_new nonempty h in
    let (k, f, i) =
      Reach-Finds (input.webhook_uuid) (a.id) (Step-WellFormed w (enqueues now input)) r first in
    let f' = subst (λ u. find (has_webhook u) (t.jobs) ≡ some k) (sym same) f in
    let there = any_of-find (input'.webhook_uuid) (t.jobs) k f' in
    let clash =
      conflicts_there (input'.webhook_uuid) (t.jobs) (ap (λ u. u =s "") same ∙ nonempty) there in
    (k, enqueue-conflicts now' input' t k clash f', i)
