-- ===== src/History.antt =====
-- The log of src/logging.c as the history of a run.
pub mod Changes
pub mod Rows
pub mod Told
pub mod Reached
pub mod Log
