-- ===== src/Costs.antt =====
-- The provider cost ledger: providers/usage.py.
pub mod Usage
pub mod Ledger
pub mod Reservations
pub mod Ceiling
pub mod Recovery
pub mod Budget
pub mod Recovered
pub mod Folding
pub mod Examples
