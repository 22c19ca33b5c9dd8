-- ===== src/Pump.antt =====
-- Class Pump (main/acionna/pump.hpp): star-delta start of the motor over three contactors, its
-- stop, its one-second update and its event log. A method takes the pump and the world, and gives
-- both back; `now` is the second that `*epoch_time_` holds.
pub mod State
pub mod Stop
pub mod Start
pub mod Update
pub mod Wait
pub mod Levels
pub mod Interlock
pub mod Frame
pub mod Motor
pub mod Timers
mod Tests
