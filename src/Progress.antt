-- ===== src/Progress.antt =====
-- Progress: a state in which no process can move is one in which all have finished.
pub mod Rests
pub mod Slots
pub mod Jam
pub mod Kitchen
pub mod Ends
pub mod AtRest
pub mod Completes
