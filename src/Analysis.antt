-- ===== src/Analysis.antt =====
-- The analysis pipeline: the job rows that its six workers hand on from stage to stage
-- (backend/internal/job, and the repositories of recommendation, generation, validation and repair).
pub mod Model
pub mod Queue
pub mod Intake
pub mod Saves
pub mod Worker
pub mod Order
pub mod Effects
pub mod History
pub mod Floors
pub mod Fencing
pub mod Redelivery
pub mod Fetched
pub mod Single
pub mod Retries
pub mod Deaths
pub mod Loop
mod Tests
