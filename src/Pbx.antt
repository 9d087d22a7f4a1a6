-- ===== src/Pbx.antt =====
-- HW5-Private-Branch-Exchange-Telephone-System, the private branch exchange.
pub mod State
pub mod Units
pub mod Notices
pub mod Pairing
pub mod Pickup
pub mod Hangup
pub mod Chat
pub mod Dial
pub mod Registry
pub mod Histories
mod Tests
