-- ===== src/Workflow/Consistency.antt =====
-- The keys of the workflow tables: ids are unique and come from the sequences, and a job has one
-- 'operation' unit.
use Prim.Native.String.{String}
use ai_test_assistant.Prelude.{
  ℕ, ◌+◌, ◌≤◌, ◌<◌, ◌≡◌, refl, Bool, true, false, Option, some, List, [], ◌∷◌, ◌++◌, map, ◌&&◌,
  ◌==◌, update, find, All, All-append, All-mono, Option-cases, Bool-cases, inl, inr, none, not,
  if◌then◌else◌, All-update, count_p, count_p-append, count_p-update, arith,
}
use ai_test_assistant.Workflow.Model.{
  Operation, index_documents, extract_requirements, generate_testcases, Job, JobUnit, Store,
  ExtractionJob, SourceIntent, UnitKey, operation_key, requirement_key, retire_key,
}
use ai_test_assistant.Workflow.Rows.{job_is, is_native, is_operation_unit, is_operation_key}
use ai_test_assistant.Workflow.Claim.{
  sweep, set_exhausted, set_unit_exhausted, set_claimed, set_unit_claimed, set_renewed,
}
use ai_test_assistant.Workflow.Finish.{
  set_unit_completed, set_completed, set_unit_generated, set_generated,
}
use ai_test_assistant.Workflow.Fail.{set_unit_failed, set_failed}
use ai_test_assistant.Workflow.Generation.{
  Pin, generation_keys, is_selected, set_unit_begun, set_unit_broken, set_unit_published,
  publish_unit,
}
use ai_test_assistant.Workflow.Control.{
  set_reconciled, set_unit_reconciled, reconcile_units, set_unit_canceled, set_canceled,
  set_unit_reopened, set_reopened, reopened,
}
use ai_test_assistant.Workflow.Enqueue.{Request, new_unit, new_units, pinned_keys, has_pinned_units}
use ai_test_assistant.Workflow.CommandCases.{Reconciles, inserted_job, inserted_store}
use ai_test_assistant.Workflow.Step.{Preserved}

pub record IsConsistent (s : Store) : Type 0 where
  pub one_job : (id : ℕ) → count_p (job_is id) s.jobs ≤ 1
  pub one_unit : (id : ℕ) → count_p (is_operation_unit id) s.units ≤ 1
  pub known_jobs : All (λ j. j.id < s.next_job_id) s.jobs
  pub known_owners : All (λ u. u.workflow_job_id < s.next_job_id) s.units

-- A statement leaves the keys of the job rows alone.
abbrev KeepsJobKey : (Job → Job) → Type 0
KeepsJobKey f = (j : Job) → (f j).id ≡ j.id

abbrev KeepsUnitKey : (JobUnit → JobUnit) → Type 0
KeepsUnitKey f =
    (u : JobUnit) → ((f u).workflow_job_id ≡ u.workflow_job_id) × ((f u).unit_key ≡ u.unit_key)

module _ (s : Store) (h : IsConsistent s) where
  update_jobs-IsConsistent :
      (p : Job → Bool) (f : Job → Job)
      → KeepsJobKey f
      → IsConsistent (record s { jobs = update p f s.jobs })
  update_jobs-IsConsistent p f k = record {
    one_job =
        λ id. rw (count_p-update (job_is id) p f s.jobs (λ j. ground (arith, k j))) (h.one_job id);
    one_unit = h.one_unit;
    known_jobs = All-update _ p f s.jobs (λ j l. ground (arith, k j)) h.known_jobs;
    known_owners = h.known_owners;
  }

  update_units-IsConsistent :
      (p : JobUnit → Bool) (f : JobUnit → JobUnit)
      → KeepsUnitKey f
      → IsConsistent (record s { units = update p f s.units })
  update_units-IsConsistent p f k = record {
    one_job = h.one_job;
    one_unit = λ id.
        rw (count_p-update (is_operation_unit id) p f s.units (λ u. ground (arith, k u)))
          (h.one_unit id);
    known_jobs = h.known_jobs;
    known_owners = All-update _ p f s.units (λ u l. ground (arith, k u)) h.known_owners;
  }

update_both-IsConsistent :
    (s : Store) (h : IsConsistent s) (p : Job → Bool) (f : Job → Job) (q : JobUnit → Bool)
    (g : JobUnit → JobUnit)
    → KeepsJobKey f
    → KeepsUnitKey g
    → IsConsistent (record s { jobs = update p f s.jobs; units = update q g s.units })
update_both-IsConsistent s h p f q g k l =
    update_units-IsConsistent (record s { jobs = update p f s.jobs })
      (update_jobs-IsConsistent s h p f k) q g l

pub sweep-IsConsistent : (now : ℕ) (s : Store) → IsConsistent s → IsConsistent (sweep now s)
unfolding sweep set_exhausted set_unit_exhausted
sweep-IsConsistent now s h = update_both-IsConsistent s h _ _ _ _ (λ j. refl) (λ u. (refl, refl))

-- The second statement of the reconciliation writes units only.
pub reconcile_units-rest :
    (id now : ℕ) (s : Store)
    → ((reconcile_units id now s).jobs ≡ s.jobs)
      × ((reconcile_units id now s).next_job_id ≡ s.next_job_id)
unfolding reconcile_units
reconcile_units-rest id now s = ground arith

reconcile_units-IsConsistent :
    (id now : ℕ) (s : Store) → IsConsistent s → IsConsistent (reconcile_units id now s)
unfolding reconcile_units
reconcile_units-IsConsistent id now s h =
    elim (Option-cases (find (λ j. job_is id j && not (is_native j.delegate_kind)) s.jobs)) [
      | inl e ↦ rw (e, reconcile_units) h
      | inr (j, e) ↦
          rw (e, reconcile_units)
            (update_units-IsConsistent s h (λ u. u.workflow_job_id == id)
              (set_unit_reconciled j now) (λ u. (refl, refl)))
    ]

reconciles : Reconciles IsConsistent
unfolding set_reconciled
reconciles = record {
  job_row = λ id now s j x h _ _. update_jobs-IsConsistent s h (job_is id) _ (λ j. refl);
  unit_rows = reconcile_units-IsConsistent;
}

zero_count :
    (id n : ℕ) (js : List Job) → All (λ j. j.id < n) js → n ≤ id → count_p (job_is id) js ≡ 0
zero_count id n [] h l = refl
zero_count id n (j ∷ js) h l = ground (arith, zero_count id n js h.1 l)

zero_unit_count :
    (id n : ℕ) (us : List JobUnit)
    → All (λ u. u.workflow_job_id < n) us
    → n ≤ id
    → count_p (is_operation_unit id) us ≡ 0
zero_unit_count id n [] h l = refl
zero_unit_count id n (u ∷ us) h l = ground (arith, zero_unit_count id n us h.1 l)

-- No generation unit has the key of the operation.
abbrev pub NotOperation : UnitKey → Type 0
NotOperation k = is_operation_key k ≡ false

keys_of_ids : (ids : List ℕ) → All NotOperation (map requirement_key ids)
keys_of_ids [] = tt
keys_of_ids (id ∷ ids) = (refl, keys_of_ids ids)

retire_keys : (b : Bool) → All NotOperation (if b then [] else retire_key ∷ [])
retire_keys true = tt
retire_keys false = (refl, tt)

pinned_keys_lem : (op : Operation) (pin : Option Pin) → All NotOperation (pinned_keys op pin)
unfolding pinned_keys generation_keys
pinned_keys_lem generate_testcases (some pin) = elim (Bool-cases pin.per_requirement_units) [
  | inl e ↦ rw e (
      All-append NotOperation (map requirement_key pin.requirement_ids) _
        (keys_of_ids pin.requirement_ids) (retire_keys (is_selected pin.scope)))
  | inr e ↦ rw e tt
]
pinned_keys_lem generate_testcases none = tt
pinned_keys_lem index_documents pin = tt
pinned_keys_lem extract_requirements pin = tt

new_units_count :
    (id first job_id : ℕ) (hash : String) (now : ℕ) (ks : List UnitKey)
    → All NotOperation ks
    → count_p (is_operation_unit id) (new_units first job_id hash now ks) ≡ 0
unfolding new_units
new_units_count id first job_id hash now [] h = refl
new_units_count id first job_id hash now (k ∷ ks) h =
    ground (arith, h.0, new_units_count id (first + 1) job_id hash now ks h.1)

new_units_owner :
    (first job_id : ℕ) (hash : String) (now : ℕ) (ks : List UnitKey)
    → All (λ u. u.workflow_job_id < job_id + 1) (new_units first job_id hash now ks)
unfolding new_units
new_units_owner first job_id hash now [] = tt
new_units_owner first job_id hash now (k ∷ ks) =
    (omega arith, new_units_owner (first + 1) job_id hash now ks)

pub inserted_id :
    (pin : Option Pin) (q : Request) (id now : ℕ) → (inserted_job pin q id now).id ≡ id
unfolding inserted_job
inserted_id pin q id now = elim (Bool-cases (has_pinned_units q.operation pin)) [
  | inl e ↦ rw e
  | inr e ↦ rw e
]

module _ (pin : Option Pin) (q : Request) (now : ℕ) (s : Store) (xs : List ExtractionJob)
    (h : IsConsistent s) where
  abbrev new_row : Job
  new_row = inserted_job pin q s.next_job_id now

  abbrev added : List JobUnit
  added =
      new_unit s.next_unit_id s.next_job_id operation_key q.input_hash now
      ∷ new_units (s.next_unit_id + 1) s.next_job_id q.input_hash now (pinned_keys q.operation pin)

  insert_one_job : (id : ℕ) → count_p (job_is id) (s.jobs ++ new_row ∷ []) ≤ 1
  insert_one_job id = ground (
    arith,
    count_p-append (job_is id) s.jobs (new_row ∷ []),
    inserted_id pin q s.next_job_id now,
    h.one_job id,
    zero_count id s.next_job_id s.jobs h.known_jobs,
  )

  insert_one_unit : (id : ℕ) → count_p (is_operation_unit id) (s.units ++ added) ≤ 1
  unfolding new_unit
  insert_one_unit id = ground (
    arith,
    count_p-append (is_operation_unit id) s.units added,
    h.one_unit id,
    zero_unit_count id s.next_job_id s.units h.known_owners,
    new_units_count id (s.next_unit_id + 1) s.next_job_id q.input_hash now
        (pinned_keys q.operation pin) (pinned_keys_lem q.operation pin),
  )

  inserted-IsConsistent : IsConsistent (inserted_store pin q now xs s)
  unfolding new_unit
  inserted-IsConsistent = record {
    one_job = insert_one_job;
    one_unit = insert_one_unit;
    known_jobs =
        All-append _ s.jobs (new_row ∷ []) (All-mono _ _ s.jobs (λ j l. omega arith) h.known_jobs)
          (omega (arith, inserted_id pin q s.next_job_id now), tt);
    known_owners =
        All-append _ s.units added (All-mono _ _ s.units (λ u l. omega arith) h.known_owners) (
          omega arith,
          new_units_owner (s.next_unit_id + 1) s.next_job_id q.input_hash now
              (pinned_keys q.operation pin),
        );
  }

-- The keys do not depend on the other tables.
other_tables :
    (s : Store) (xs : List ExtractionJob) (is : List SourceIntent)
    → IsConsistent s
    → IsConsistent (record s { extractions = xs; intents = is })
other_tables s xs is h = record {
  one_job = h.one_job;
  one_unit = h.one_unit;
  known_jobs = h.known_jobs;
  known_owners = h.known_owners;
}

-- Every operation keeps the keys.
pub consistent : Preserved IsConsistent
unfolding set_claimed set_unit_claimed set_renewed set_completed set_unit_completed set_generated
    set_unit_generated set_failed set_unit_failed set_unit_begun set_unit_broken publish_unit
    set_unit_published set_canceled set_unit_canceled reopened set_reopened set_unit_reopened
consistent = record {
  on_claim = λ lease now s c h _.
      update_both-IsConsistent (sweep now s) (sweep-IsConsistent now s h) _ _ _ _ (λ j. refl)
        (λ u. (refl, refl));
  on_beat = λ c lease now s h. update_jobs-IsConsistent s h _ _ (λ j. refl);
  on_complete =
      λ c output now s h. update_both-IsConsistent s h _ _ _ _ (λ j. refl) (λ u. (refl, refl));
  on_generated = λ c completed failures output now s h _.
      update_both-IsConsistent s h _ _ _ _ (λ j. refl) (λ u. (refl, refl));
  on_fail = λ c cause code retryable delay now s row message h _.
      update_both-IsConsistent s h _ _ _ _ (λ j. refl) (λ u. (refl, refl));
  on_begin = λ id now s h. update_units-IsConsistent s h _ _ (λ u. (refl, refl));
  on_break = λ id unit_id failures code message now s h.
      update_both-IsConsistent s h _ _ _ _ (λ j. refl) (λ u. (refl, refl));
  on_publish = λ id unit_id output now s h.
      update_both-IsConsistent s h _ _ _ _ (λ j. refl) (λ u. (refl, refl));
  on_reconcile = reconciles;
  on_cancel = λ id revision now s row h _ _.
      other_tables _ _ _ (update_both-IsConsistent s h _ _ _ _ (λ j. refl) (λ u. (refl, refl)));
  on_retry = λ id revision now s row h _ _.
      other_tables _ _ _ (update_both-IsConsistent s h _ _ _ _ (λ j. refl) (λ u. (refl, refl)));
  on_insert = λ pin q now s xs h _. inserted-IsConsistent pin q now s xs h;
  on_extract = λ s xs h. other_tables s xs s.intents h;
}
