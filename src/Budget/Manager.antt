-- ===== src/Budget/Manager.antt =====
-- backend/internal/aibudget/budget.go: the `Manager`. An int64 is its 64-bit pattern, a number below
-- 2 ^ 64, with the wrap-around of its sums written out.
use Prim.Native.String.{String, len}
use ai_test_assistant.Prelude.{
  ℕ, ◌+◌, ◌-◌, ◌^◌, ◌%◌, Bool, not, ◌&&◌, ◌||◌, Option, none, some, List, [], ◌∷◌, ◌++◌, ◌==◌, ltb,
  leb, max, count_p, if◌then◌else◌, update, find, Result, ok, err, ◌>>=◌, ◌>>◌, require, or_err,
  transaction,
}
use ai_test_assistant.Budget.Model.{Row, reserved, completed, released, is_reserved, is_completed}

-- The columns of `document_sets` that the budget reads; `active` is `status = 'ACTIVE'`.
pub record SetRow : Type 0 where
  pub id : ℕ
  pub token_budget : ℕ
  pub cost_budget : ℕ
  pub active : Bool

-- The two tables, and the id sequence of the reservations.
pub record Ledger : Type 0 where
  pub sets : List SetRow
  pub rows : List Row
  pub next_id : ℕ

pub data BudgetError : Type 0 where
  exceeded set_not_found not_active database : BudgetError

-- A Go `int`, with its sign.
pub data ℤ : Type 0 where
  pos negsuc : ℕ → ℤ

-- `llm.Request`, of which `schema` is the text that `json.Marshal` makes of the schema.
pub record Request : Type 0 where
  pub instructions : String
  pub input : String
  pub schema : String
  pub schema_name : String
  pub max_output_tokens : ℤ

-- `llm.Usage`.
pub record TokenUsage : Type 0 where
  pub input_tokens : ℤ
  pub output_tokens : ℤ

pub record Reservation : Type 0 where
  pub id : ℕ
  pub set_id : ℕ
  pub reserved_tokens : ℕ
  pub reserved_cost : ℕ

-- `WorkflowAttempt`, as the context carries it; all zero where it carries none.
pub record WorkflowAttempt : Type 0 where
  pub job_id : ℕ
  pub unit_id : ℕ
  pub attempt : ℕ

-- `WithWorkflowAttempt`: the attempt that a call's context has after it.
unfoldable pub with_workflow_attempt : WorkflowAttempt → ℕ → ℕ → ℕ → WorkflowAttempt
with_workflow_attempt context job_id unit_id attempt =
    if job_id == 0 || (unit_id == 0 || attempt == 0)
    then context
    else record { job_id = job_id; unit_id = unit_id; attempt = attempt }

-- `max(x, floor)` on an int.
unfoldable pub at_least : ℕ → ℤ → ℕ
at_least floor (pos n) = max n floor
at_least floor (negsuc n) = floor

-- A sum of int64 values.
unfoldable pub wrap : ℕ → ℕ
wrap n = n % 2 ^ 64

-- `a > b` on int64 values, of which `b` is not negative.
unfoldable pub above : ℕ → ℕ → Bool
above a b = ltb a (2 ^ 63) && ltb b a

-- `estimateInputTokens`.
unfoldable pub estimate_input_tokens : Request → ℕ
estimate_input_tokens q =
    max (len q.instructions + len q.input + len q.schema + len q.schema_name) 1

-- `COALESCE(sum(f) FILTER (WHERE p), 0)`.
unfoldable pub sum_rows : (Row → Bool) → (Row → ℕ) → List Row → ℕ
sum_rows p f [] = 0
sum_rows p f (r ∷ rs) = (if p r then f r else 0) + sum_rows p f rs

unfoldable pub used_tokens : ℕ → List Row → ℕ
unfolding sum_rows is_completed
used_tokens set_id =
    sum_rows (λ r. r.set_id == set_id && is_completed r.status)
      (λ r. r.input_tokens + r.output_tokens)

unfoldable pub held_tokens : ℕ → List Row → ℕ
unfolding sum_rows is_reserved
held_tokens set_id =
    sum_rows (λ r. r.set_id == set_id && is_reserved r.status) (λ r. r.reserved_tokens)

unfoldable pub used_cost : ℕ → List Row → ℕ
unfolding sum_rows is_completed
used_cost set_id = sum_rows (λ r. r.set_id == set_id && is_completed r.status) (λ r. r.actual_cost)

unfoldable pub held_cost : ℕ → List Row → ℕ
unfolding sum_rows is_reserved
held_cost set_id = sum_rows (λ r. r.set_id == set_id && is_reserved r.status) (λ r. r.reserved_cost)

-- `Scan` into an int64: a larger sum is an error.
unfoldable pub fits : ℕ → Bool
fits n = ltb n (2 ^ 63)

-- `NULLIF(n, 0)`.
unfoldable pub null_if_zero : ℕ → Option ℕ
null_if_zero n = if n == 0 then none else some n

-- The row that `Reserve` inserts.
unfoldable pub new_row : ℕ → ℕ → String → String → WorkflowAttempt → ℕ → ℕ → ℕ → Row
unfolding null_if_zero
new_row id set_id phase subject attempt tokens cost expires = record {
  id = id;
  set_id = set_id;
  phase = phase;
  subject_key = subject;
  status = reserved;
  reserved_tokens = tokens;
  reserved_cost = cost;
  input_tokens = 0;
  output_tokens = 0;
  actual_cost = 0;
  expires_at = expires;
  completed_at = none;
  workflow_job_id = null_if_zero attempt.job_id;
  workflow_unit_id = null_if_zero attempt.unit_id;
  workflow_attempt = null_if_zero attempt.attempt;
}

abbrev pub no_reservation : Reservation
no_reservation = record { id = 0; set_id = 0; reserved_tokens = 0; reserved_cost = 0 }

-- The row that `Finalize`, `Release` and `Uncertain` write: `id=$1 AND status='RESERVED'`.
unfoldable pub is_open : ℕ → Row → Bool
is_open id r = r.id == id && is_reserved r.status

unfoldable pub set_finalized : ℕ → ℕ → ℕ → ℕ → Row → Row
set_finalized input output cost now r = record r {
  status = completed;
  input_tokens = input;
  output_tokens = output;
  actual_cost = cost;
  completed_at = some now;
}

unfoldable pub set_released : ℕ → Row → Row
set_released now r = record r { status = released; completed_at = some now }

unfoldable pub set_uncertain : ℕ → Row → Row
set_uncertain now r = record r { expires_at = if ltb r.expires_at now then r.expires_at else now }

-- A `Manager`: whether there is one with a pool, and how long a reservation lasts. `cost` is
-- `estimateCost` at its rates, in floating point: the pattern of an int64.
module _ (connected : Bool) (ttl : ℕ) (cost : ℕ → ℕ → ℕ) where
  -- The statements of `Reserve`.
  unfoldable pub reserve_body :
      ℕ
      → String
      → String
      → Request
      → WorkflowAttempt
      → ℕ
      → Ledger
      → Result BudgetError (Ledger × Reservation)
  unfolding estimate_input_tokens at_least wrap above used_tokens held_tokens used_cost held_cost
      fits new_row
  reserve_body set_id phase subject q attempt now l = do
    let input = estimate_input_tokens q
    let output = at_least 1 q.max_output_tokens
    let tokens = wrap (input + output)
    let price = cost input output
    set ← or_err (find (λ d. d.id == set_id) l.sets) set_not_found
    require set.active exceeded
    let used = used_tokens set_id l.rows
    let held = held_tokens set_id l.rows
    let spent = used_cost set_id l.rows
    let pledged = held_cost set_id l.rows
    require (fits used && (fits held && (fits spent && fits pledged))) database
    require (not (above (wrap (used + held + tokens)) set.token_budget)) exceeded
    require (not (ltb 0 set.cost_budget && above (wrap (spent + pledged + price)) set.cost_budget))
        exceeded
    require (fits tokens && (ltb 0 tokens && fits price)) database
    ok (
      record l {
        rows =
            l.rows ++ new_row l.next_id set_id phase subject attempt tokens price (now + ttl) ∷ [];
        next_id = l.next_id + 1;
      },
      record { id = l.next_id; set_id = set_id; reserved_tokens = tokens; reserved_cost = price },
    )

  -- `Reserve`.
  unfoldable pub reserve :
      ℕ
      → String
      → String
      → Request
      → WorkflowAttempt
      → ℕ
      → Ledger
      → Ledger × Result BudgetError Reservation
  unfolding reserve_body
  reserve set_id phase subject q attempt now l =
      if not connected
      then (l, ok no_reservation)
      else transaction l (reserve_body set_id phase subject q attempt now l)

  -- `Finalize`.
  unfoldable pub finalize :
      Reservation → TokenUsage → ℕ → Ledger → Ledger × Result BudgetError (Unit {0})
  unfolding at_least is_open
  finalize v usage now l =
      let input = at_least 0 usage.input_tokens in
      let output = at_least 0 usage.output_tokens in
      let price = cost input output in
      if not connected || v.id == 0
      then (l, ok tt)
      else if not (fits price)
      then (l, err database)
      else (
        record l { rows = update (is_open v.id) (set_finalized input output price now) l.rows },
        if count_p (is_open v.id) l.rows == 1 then ok tt else err not_active,
      )

  -- `Release`.
  unfoldable pub release : Reservation → ℕ → Ledger → Ledger
  unfolding is_open
  release v now l =
      if not connected || v.id == 0
      then l
      else record l { rows = update (is_open v.id) (set_released now) l.rows }

  -- `Uncertain`.
  unfoldable pub uncertain : Reservation → ℕ → Ledger → Ledger
  unfolding is_open
  uncertain v now l =
      if not connected || v.id == 0
      then l
      else record l { rows = update (is_open v.id) (set_uncertain now) l.rows }

  -- `ResolveProviderError`; `disabled` is `errors.Is(cause, llm.ErrDisabled)`.
  unfoldable pub resolve_provider_error : Reservation → Bool → ℕ → Ledger → Ledger
  unfolding release uncertain
  resolve_provider_error v disabled now l = if disabled then release v now l else uncertain v now l

-- `Status`.
pub record BudgetStatus : Type 0 where
  pub unreconciled : ℕ
  pub set_id : ℕ
  pub token_budget : ℕ
  pub used_tokens : ℕ
  pub reserved_tokens : ℕ
  pub remaining_tokens : ℕ
  pub cost_budget : ℕ
  pub used_cost : ℕ
  pub reserved_cost : ℕ
  pub remaining_cost : ℕ

-- `max(budget-used-held, 0)` on int64 values that are not negative; the difference can wrap around.
unfoldable pub remaining : ℕ → ℕ → ℕ → ℕ
remaining budget used held =
    if ltb (budget + 2 ^ 63) (used + held)
    then (budget + 2 ^ 64) - (used + held)
    else budget - (used + held)

-- `Manager.Status`.
unfoldable pub status : ℕ → ℕ → Ledger → Result BudgetError BudgetStatus
unfolding used_tokens held_tokens used_cost held_cost fits remaining
status set_id now l = do
  set ← or_err (find (λ d. d.id == set_id) l.sets) set_not_found
  let used = used_tokens set_id l.rows
  let held = held_tokens set_id l.rows
  let spent = used_cost set_id l.rows
  let pledged = held_cost set_id l.rows
  require (fits used && (fits held && (fits spent && fits pledged))) database
  ok (record {
    unreconciled =
        count_p (λ r. r.set_id == set_id && (is_reserved r.status && leb r.expires_at now)) l.rows;
    set_id = set_id;
    token_budget = set.token_budget;
    used_tokens = used;
    reserved_tokens = held;
    remaining_tokens = remaining set.token_budget used held;
    cost_budget = set.cost_budget;
    used_cost = spent;
    reserved_cost = pledged;
    remaining_cost = remaining set.cost_budget spent pledged;
  })
