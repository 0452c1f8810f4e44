-- ===== src/Poller.antt =====
-- The poller: poller/poll.py.
pub mod Downloads
pub mod Fence
pub mod Examples
