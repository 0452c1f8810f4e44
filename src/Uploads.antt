-- ===== src/Uploads.antt =====
-- api/upload_limits.py, in parts: the length check and its numbers, and the bound on the body.
pub mod Length
pub mod Digits
pub mod Compared
pub mod Decimals
pub mod Admits
pub mod Body
pub mod Bounded
pub mod Answered
pub mod Rejects
mod Examples
