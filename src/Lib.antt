-- ===== src/Lib.antt =====
-- Verification library of the backend (backend/internal).
--
-- A document set is worked on in three operations: indexing, extraction of requirements and generation
-- of test cases. Each runs as a durable job: HTTP handlers enqueue, cancel and retry jobs, workers
-- claim them under a lease, renew the lease, and complete or fail them; a generation job has a unit per
-- requirement with its own checkpoint. Language model calls reserve from the set's AI budget first.
-- The read model tells the user's page what may be done next.
-- Besides, a webhook of a merge request starts an analysis job, which six workers hand on: fetch the
-- changed files, find the changed symbols in their diffs, recommend, generate, validate and repair
-- tests. Its claims are recognized by status and attempt number.
--
-- Files and code:
--   Workflow       backend/internal/workflow: repository.go, generation_units.go, worker.go, model.go.
--     Model, Rows      the tables as lists of records, and the tests of the SQL conditions
--     Claim            ClaimNext (claim_next, sweep, claimable, first_candidate) and Heartbeat
--     Finish, Fail     Complete, completeGeneration, Fail; Errors: classifyError, truncateError
--     Control          Get with reconcileDelegated, Cancel, Retry
--     Enqueue          ExistingByKey, activeOperation, enqueue
--     Generation       generationKeys, beginGenerationUnit, failGenerationUnit, and the checkpoint that
--                      saveProposals of testcase/proposal_repository.go writes (publish_unit)
--     Proposals        saveProposals, with the rows of the proposals as a parameter (save_proposals)
--     Units            processGenerationUnits (process_units), with the generation as a parameter
--     Worker           runOnce from the claim on (run_once)
--     Snapshot         BuildIndexSnapshot, buildGenerateSnapshot, sameIdempotentCommand
--     Cases, CommandCases, Step, Consistency, Lifecycle, Invariant, Floor, Candidate, Fencing,
--                      Overtaken: the stores that each operation leaves, histories of operations (Reach), what they
--                      keep; Stale, Picking, Cancellation, Ending, Late, Checkpoints,
--                      Counted, Sources: theorems
--   Analysis       backend/internal/job (repository.go, worker.go, model.go), and the queues of
--                  recommendation, generation, validation, repair and review: the pipeline of an
--                  analysis of a merge request
--     Model, Queue     the job rows; claimNext, retryOrFail, RenewLease, for the stage given
--     Intake           Enqueue, with the unique index on webhook_uuid
--     Saves            SaveFetched; of the other Save calls the statement that hands the job on
--     Worker           runOnce, with the processor as a parameter
--     Order, Effects, History, Floors: what one operation may do to a row, histories of operations;
--                      Fencing, Redelivery, Fetched, Retries, Deaths, Loop: theorems (Single: one job)
--   Analyzer       backend/internal/analyzer: diff_parser.go (Diff; Render is the format it is compared
--                  with), mapper.go (Mapper), and impact_engine.go: the graph of a repository's symbols
--                  (Graph) and selectImpact (Impact), whose loop runs on fuel; Connection: which
--                  symbols are connected; Bounds, Measure, Ending, Connected: theorems
--   Scm            backend/internal/scm/scm.go: the rules for repository paths (Paths), theorems
--                  (Resolution, Escaping)
--   Budget         backend/internal/aibudget/budget.go: the Manager (Manager), its sums and theorems
--   Guide          backend/internal/workflow/service.go: Read and its helpers (Read), the selection of
--                  requirements (Selection), theorems (Advice, Steps; Deciding: the job that
--                  decides a step)
--   Requirement    backend/internal/requirement/source_comparison.go: compareRequirements
--   Execution      backend/internal/execution/classifier.go: Classify
--   Prelude        tests, lists, tables (UPDATE … WHERE as update, SELECT … LIMIT 1 as find), results,
--                  texts as lists of bytes (split, join), Go maps (Maps: put_entry, entry)
--
-- State is passed explicitly: an operation takes the store and the time NOW() and returns the store and
-- a result. A transaction is atomic and an error undoes it (transaction); FOR UPDATE and SKIP LOCKED
-- therefore see no locked row, and concurrent clients are sequences of operations (Step, Reach). Ids,
-- times and durations are natural numbers, so that `<= 0` is `== 0`. Loops are structural recursion but
-- that of selectImpact, whose fuel counts queued symbols plus nodes times depths. Iterations of a worker
-- are counted by their number. An id that BIGSERIAL spends in a rolled-back transaction is given again.
--
-- The constraints modelled are the unique idempotency key and the unique active operation of
-- document_workflow_jobs, the rows that a statement must find, and that text is UTF-8 (truncate_error).
-- Other failures of the driver or the network are not modelled. The budget's int64 sums are written
-- with their wrap-around; the price and the impact scores in floating point are parameters, as are
-- json.Marshal and json.Unmarshal (encode, decode), strings.ToLower, strings.TrimSpace, url.PathEscape,
-- error texts, the processor of a worker, and the results of the queries of the read model. sort.Strings,
-- sort.Ints, sort.Slice and slices.Sort are insertion sorts, and a Go map is an association list. The
-- pattern of a hunk header is matched by clauses; strconv.Atoi and the test for a blank diff are
-- parameters, and so is the cut of a long run output at a byte (last_bytes).
--
-- Not modelled: the rows that the stages after the fetch insert (symbols, recommendations, generated
-- tests, runs, repairs), since only their queues are; the graph that the impact engine builds on the Go
-- parser, and the sorting of its result; HTTP handlers, clients of GitHub, GitLab and the language model,
-- SQL of the other services, document parsing, the sandbox runner, migrations and the frontend.
pub mod Prelude
pub mod Analysis
pub mod Analyzer
pub mod Scm
pub mod Budget
pub mod Workflow
pub mod Guide
pub mod Execution
pub mod Requirement
