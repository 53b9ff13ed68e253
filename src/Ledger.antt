-- ===== src/Ledger.antt =====
-- The counts of requests: what the groups have asked, and what the receptionist, the waiter and the
-- chef have counted, agree.
pub mod Counts
mod GroupCounts
mod ServantCounts
pub mod Reached
pub use Reached.*
