-- ===== src/FreePool.antt =====
-- The guard of the free daily pool: openai_budget.py.
pub mod Guard
pub mod Reported
pub mod Complete
pub mod Closed
mod Examples
