-- ===== src/Budget/Tests.antt =====
-- The theorems on the budget at a concrete ledger.

use ai_test_assistant.Prelude.{
  ℕ, ◌+◌, ◌≡◌, refl, true, none, [], ◌∷◌, leb, find, some, arith, ok, err,
}
use ai_test_assistant.Budget.Model.{Row, reserved, is_reserved}
use ai_test_assistant.Budget.Manager.{
  SetRow, Ledger, not_active, pos, Request, TokenUsage, Reservation, WorkflowAttempt, BudgetStatus,
  at_least, estimate_input_tokens, used_tokens, held_tokens, used_cost, held_cost, reserve,
  finalize, release, uncertain, status, fits, is_open,
}
use ai_test_assistant.Budget.Sums.{committed_tokens}
use ai_test_assistant.Budget.Safety.{Reserved, asked, reserve_within_budget}
use ai_test_assistant.Budget.Settling.{
  is_granted, of_set, charged, settled_tokens, settled_once, remaining_decides_reserve,
}

-- Two micro-USD for each token.
abbrev price : ℕ → ℕ → ℕ
price input output = input + input + (output + output)

abbrev set : SetRow
set = record { id = 7; token_budget = 1000; cost_budget = 0; active = true }

abbrev row : Row
row = record {
  id = 1;
  set_id = 7;
  phase = "GENERATE";
  subject_key = "requirement:4";
  status = reserved;
  reserved_tokens = 300;
  reserved_cost = 600;
  input_tokens = 0;
  output_tokens = 0;
  actual_cost = 0;
  expires_at = 50;
  completed_at = none;
  workflow_job_id = none;
  workflow_unit_id = none;
  workflow_attempt = none;
}

abbrev ledger : Ledger
ledger = record { sets = set ∷ []; rows = row ∷ []; next_id = 2 }

abbrev question : Request
question = record {
  instructions = "ask";
  input = "data";
  schema = "{}";
  schema_name = "s";
  max_output_tokens = pos 90;
}

abbrev no_attempt : WorkflowAttempt
no_attempt = record { job_id = 0; unit_id = 0; attempt = 0 }

abbrev granted : Reservation
granted = record { id = 2; set_id = 7; reserved_tokens = 100; reserved_cost = 200 }

abbrev after_reserve : Ledger
after_reserve = (reserve true 60 price 7 "GENERATE" "x" question no_attempt 10 ledger).0

reserves :
    reserve true 60 price 7 "GENERATE" "x" question no_attempt 10 ledger
    ≡ (after_reserve, ok granted)
unfolding reserve find
reserves = refl

reserve_within_budget_example :
    (d : SetRow) × Reserved 60 price 7 question ledger after_reserve granted d
unfolding used_tokens held_tokens used_cost held_cost estimate_input_tokens at_least
reserve_within_budget_example =
    reserve_within_budget 60 price 7 "GENERATE" "x" question no_attempt 10 ledger after_reserve
      granted (omega arith) (omega arith) reserves

abbrev told : BudgetStatus
told = record {
  unreconciled = 0;
  set_id = 7;
  token_budget = 1000;
  used_tokens = 0;
  reserved_tokens = 300;
  remaining_tokens = 700;
  cost_budget = 0;
  used_cost = 0;
  reserved_cost = 600;
  remaining_cost = 0;
}

tells : status 7 10 ledger ≡ ok told
unfolding status find
tells = refl

remaining_decides_reserve_example :
    is_granted (reserve true 60 price 7 "GENERATE" "x" question no_attempt 10 ledger).1
    ≡ leb (asked question) 700
unfolding used_tokens held_tokens used_cost held_cost estimate_input_tokens at_least fits find
remaining_decides_reserve_example =
    remaining_decides_reserve 60 price 7 "GENERATE" "x" question no_attempt 10 ledger told set refl
      refl refl tells (omega arith) refl

abbrev spent : TokenUsage
spent = record { input_tokens = pos 100; output_tokens = pos 50 }

abbrev held : Reservation
held = record { id = 1; set_id = 7; reserved_tokens = 300; reserved_cost = 600 }

abbrev after_finalize : Ledger
after_finalize = (finalize true 60 price held spent 20 ledger).0

finalizes : finalize true 60 price held spent 20 ledger ≡ (after_finalize, ok tt)
unfolding finalize fits is_reserved
finalizes = refl

settled_tokens_example :
    (r : Row) × (find (is_open 1) ledger.rows ≡ some r)
    × (committed_tokens 7 (finalize true 60 price held spent 20 ledger).0.rows
          + of_set 7 r r.reserved_tokens
        ≡ committed_tokens 7 ledger.rows + of_set 7 r (charged spent))
    × (committed_tokens 7 (release true 60 price held 20 ledger).rows + of_set 7 r r.reserved_tokens
        ≡ committed_tokens 7 ledger.rows)
    × (committed_tokens 7 (uncertain true 60 price held 20 ledger).rows
        ≡ committed_tokens 7 ledger.rows)
unfolding at_least fits is_reserved is_open
settled_tokens_example = settled_tokens 60 price 7 held spent 20 ledger (omega arith) refl refl

settled_once_example :
    (finalize true 60 price held spent 30 after_finalize ≡ (after_finalize, err not_active))
    × (release true 60 price held 30 after_finalize ≡ after_finalize)
    × (uncertain true 60 price held 30 after_finalize ≡ after_finalize)
unfolding at_least fits
settled_once_example =
    settled_once 60 price held spent spent 20 30 ledger after_finalize (omega arith) finalizes refl
