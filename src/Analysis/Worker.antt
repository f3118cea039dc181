-- ===== src/Analysis/Worker.antt =====
-- One iteration of a stage's worker, `runOnce` of backend/internal/job/worker.go, without its renewal of
-- leases; iterations of it, and workers that die.
use Prim.Native.String.{String}
use ai_test_assistant.Prelude.{ℕ, zero, suc, ◌+◌, ◌*◌, Option, none, some, Result, ok, err}
use ai_test_assistant.Analysis.Model.{AnalysisJob, Store, QueueError, Stage}
use ai_test_assistant.Analysis.Queue.{claim_next, retry_or_fail}

-- `Processor.Process`: what it does to the tables, and the text of its error if it returns one.
abbrev pub Processor : Type 0
Processor = AnalysisJob → Store → Store × Option String

-- The end of `runOnce`: an error of the processor is reported, and a failing report is only logged.
unfoldable pub finish_run : Stage → ℕ → ℕ → ℕ → AnalysisJob → Store × Option String → Store
unfolding retry_or_fail
finish_run q max_attempts delay now a (s, none) = s
finish_run q max_attempts delay now a (s, some message) =
    (retry_or_fail q (a.id) (a.attempt_count) message max_attempts delay now s).0

-- What follows the claim: with no job there is nothing to do.
unfoldable pub process_claim :
    Stage → ℕ → ℕ → Processor → ℕ → Store × Result QueueError AnalysisJob → Store
unfolding finish_run
process_claim q max_attempts delay process now (s, ok a) =
    finish_run q max_attempts delay now a (process a s)
process_claim q max_attempts delay process now (s, err _) = s

-- `runOnce` of backend/internal/job/worker.go.
unfoldable pub run_once : Stage → ℕ → ℕ → ℕ → Processor → ℕ → Store → Store
unfolding process_claim claim_next
run_once q max_attempts lease delay process now s =
    process_claim q max_attempts delay process now (claim_next q lease now s)

abbrev pub always_fails : String → Processor
always_fails message a s = (s, some message)

-- Iterations in which a worker asks again when the retry delay is over.
unfoldable pub run_often : Stage → ℕ → ℕ → ℕ → Processor → ℕ → ℕ → Store → Store
unfolding run_once
run_often q max_attempts lease delay process now zero s = s
run_often q max_attempts lease delay process now (suc n) s =
    run_once q max_attempts lease delay process (now + n * delay)
      (run_often q max_attempts lease delay process now n s)

-- Workers that claim the job and die, each asking when the lease of the one before is over.
unfoldable pub dying_workers : Stage → ℕ → ℕ → ℕ → Store → Store
unfolding claim_next
dying_workers q lease now zero s = s
dying_workers q lease now (suc n) s =
    (claim_next q lease (now + n * lease) (dying_workers q lease now n s)).0
