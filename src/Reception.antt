-- ===== src/Reception.antt =====
-- The protocol between the groups and the receptionist: which facts about a group's visit hold in
-- each phase, and that every step of every process keeps them.
pub mod View
pub mod GroupKeeps
pub mod ServantKeeps
pub mod DeskSteps
mod DeskKeeps
pub mod Places
mod PlacesOfDesk
mod Protocols
pub use Protocols.*
pub use PlacesOfDesk.{receptionist-Sound, IsReady-of_Desk, IsReady}
