-- ===== src/Workflow.antt =====
-- backend/internal/workflow: the durable jobs of a document set.
pub mod Model
pub mod Rows
pub mod Claim
pub mod Errors
pub mod Finish
pub mod Fail
pub mod Control
pub mod Generation
pub mod Proposals
pub mod Enqueue
pub mod Worker
pub mod Cases
pub mod CommandCases
pub mod Step
pub mod Consistency
pub mod Lifecycle
pub mod Candidate
pub mod Invariant
pub mod Floor
pub mod Fencing
pub mod Late
pub mod Overtaken
pub mod Stale
pub mod Checkpoints
pub mod Ending
pub mod Picking
pub mod Cancellation
pub mod Units
pub mod Counted
pub mod Snapshot
pub mod Sources
mod Tests
