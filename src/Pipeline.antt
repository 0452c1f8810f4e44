-- ===== src/Pipeline.antt =====
-- The recording pipeline: worker/pipeline.py.
pub mod Recording
pub mod Claims
pub mod Lease
pub mod Recovery
pub mod Capacity
pub mod Slots
pub mod Retry
pub mod Scope
pub mod Reprocess
pub mod Queueing
pub mod Forcing
pub mod Batch
pub mod Recovered
pub mod Cycle
pub mod Stages
pub mod StageCosts
pub mod StageRounds
pub mod Release
pub mod Narrow
pub mod Freed
pub mod Failing
pub mod Dispatch
pub mod Batching
pub mod Sharing
pub mod Starting
pub mod Fallback
pub mod Attempts
pub mod Examples
pub mod BatchExamples
pub mod StageExamples
pub mod CycleExamples
pub mod TableExamples
