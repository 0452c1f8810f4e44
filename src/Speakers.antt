-- ===== src/Speakers.antt =====
-- Speaker turns and paragraphs: worker/diarize.py.
pub mod Text
pub mod Turns
pub mod Clauses
pub mod Runs
pub mod Grouping
pub mod Rising
pub mod Slices
pub mod Kept
pub mod Grouped
pub mod Limited
pub mod Assigned
mod Examples
