-- ===== src/Controller.antt =====
-- Class Acionna (main/acionna/acionna.cpp and .hpp): what the controller does every second with its
-- pump, pipes and valves, and what its commands do. The radio links and the sensors are not part of
-- the model.
pub mod State
pub mod StopCheck
pub mod Schedule
pub mod Mode
pub mod Search
pub mod Shutdown
pub mod Frames
pub mod Command
pub mod CommandLaws
pub mod Rain
pub mod Optimized
pub mod SetClock
pub mod Settings
pub mod Checks
pub mod Hex
pub mod Answer
pub mod Sectors
pub mod Module
pub mod Message
pub mod Session
pub mod Wires
pub mod Steps
pub mod ModuleLaws
pub mod CheckLaws
pub mod SessionLaws
pub mod Interlock
pub mod Day
pub mod DayClock
mod Tests
