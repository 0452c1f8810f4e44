-- ===== src/Speech.antt =====
-- Speech regions for transcription: asr/vad.py.
pub mod Regions
pub mod Merge
pub mod Windows
pub mod Plan
pub mod Examples
