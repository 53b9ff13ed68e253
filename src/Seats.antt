-- ===== src/Seats.antt =====
-- The seating of the groups: who has which table, and who waits.
pub mod Book
pub mod Facts
pub mod Keeps
mod Reached
pub use Reached.*
