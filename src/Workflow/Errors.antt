-- ===== src/Workflow/Errors.antt =====
-- backend/internal/workflow: processing errors, as worker.go joins them, service.go classifies them and
-- repository.go stores their text.
use Prim.Native.String.{String, len, ◌++◌}
use text.Mathlib.Text.{get?}
use ai_test_assistant.Prelude.{Bool, true, false, ◌||◌, Option, some, ltb, if◌then◌else◌}

-- The sentinels that `errors.Is` looks for in a processing error.
pub data Sentinel : Type 0 where
  generation_lease proposal_conflict input_stale stale_index no_index no_approved_source : Sentinel
  no_parsed_documents source_snapshot_blocked context_canceled workflow_canceled : Sentinel

-- A Go error: its text, and the sentinels that its chain wraps.
pub record ProcessError : Type 0 where
  pub text : String
  pub wraps : Sentinel → Bool

-- `errors.Is(err, context.Canceled) || errors.Is(err, ErrCanceled)`.
unfoldable pub is_cancellation : ProcessError → Bool
is_cancellation e = e.wraps context_canceled || e.wraps workflow_canceled

-- `truncateError`: the first 8000 bytes. `none` when that cuts a character in two: the database takes
-- no text that is not UTF-8, and the statement fails.
unfoldable pub truncate_error : ProcessError → Option String
truncate_error e = if ltb 8000 (len e.text) then get? e.text 0 8000 else some e.text

-- `errors.Join` of two errors that are not nil.
unfoldable pub join : ProcessError → ProcessError → ProcessError
join e f = record { text = e.text ++ ("\n" ++ f.text); wraps = λ x. e.wraps x || f.wraps x }

-- `classifyError`: the code, and whether a retry makes sense. The first case that applies decides.
unfoldable pub classify_error : ProcessError → String × Bool
classify_error e =
    if e.wraps generation_lease
    then ("GENERATION_LEASE_LOST", false)
    else if e.wraps proposal_conflict
    then ("GENERATION_BASELINE_CHANGED", false)
    else if e.wraps input_stale || e.wraps stale_index
    then ("INPUT_SNAPSHOT_STALE", false)
    else if e.wraps no_index
        || e.wraps no_approved_source
        || e.wraps no_parsed_documents
        || e.wraps source_snapshot_blocked
    then ("WORKFLOW_PRECONDITION_FAILED", false)
    else if e.wraps context_canceled || e.wraps workflow_canceled
    then ("CANCELED", false)
    else ("WORKFLOW_PROCESSING_FAILED", true)
