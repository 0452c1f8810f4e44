-- ===== src/Notes.antt =====
-- Generated notes and their history: note_history.py.
pub mod Contents
pub mod History
pub mod Restore
pub mod Held
pub mod Kept
pub mod Versions
pub mod Persisted
pub mod Numbered
pub mod Sound
pub mod Timeline
pub mod Undo
mod Examples
