-- ===== src/Tokens.antt =====
-- The counting argument behind the semaphores: the value of a semaphore and the processes that hold
-- a unit of it add up to a constant, in every state of every run.
mod Held
mod Conserved
mod Balanced
pub use Held.*
pub use Conserved.*
pub use Balanced.*
