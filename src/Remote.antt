-- ===== src/Remote.antt =====
-- The remote worker: remote/server.py and remote/protocol.py.
pub mod Job
pub mod Server
pub mod Submit
pub mod Consistency
pub mod Safety
pub mod World
pub mod Promises
pub mod Retries
mod Examples
