-- ===== src/Payments.antt =====
-- The payments: at each table the receipts match the groups that wait for one.
pub mod Counts
mod GroupPays
mod DeskPays
mod Reached
pub use Reached.*
