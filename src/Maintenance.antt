-- ===== src/Maintenance.antt =====
-- The maintenance gate: maintenance.py.
pub mod Gate
pub mod Drain
pub mod Finish
pub mod Examples
