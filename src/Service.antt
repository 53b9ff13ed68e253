-- ===== src/Service.antt =====
-- The protocol between the groups, the waiter and the chef: where the order of each group is.
pub mod View
pub mod GroupKeeps
pub mod WaiterKeeps
pub mod ChefKeeps
pub mod TablesMove
pub mod Places
pub mod Transfers
mod Protocols
mod ServantSteps
mod DeskSteps
mod Steps
pub use ServantSteps.*
pub use DeskSteps.*
pub use Steps.*
pub use Protocols.*
pub mod ServantPlaces
