-- ===== src/Controller/Interlock.antt =====
-- The interlock of the pump's K2 and K3 for the controller as a whole: every second and every
-- command.
pub mod Blind
pub mod State
pub mod Stops
pub mod Matches
pub mod Second
pub mod Modes
pub mod Events
pub mod Settings
pub mod Programme
pub mod Sectors
pub mod Message
pub mod Reach
mod Tests
