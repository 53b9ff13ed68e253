-- ===== src/Safety.antt =====
-- What holds in every state of every run.
pub mod Exclusion
pub mod Faults
pub mod Seating
pub mod Servants
pub mod Orders
