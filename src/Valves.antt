-- ===== src/Valves.antt =====
-- Class Valves (main/acionna/valves.hpp): the sequence of the irrigation sectors.
pub mod Flow
pub mod State
pub mod Log
pub mod Sequence
pub mod Opened
pub mod Find
pub mod FindInverted
pub mod Range
pub mod Safe
pub mod Cycle
pub mod Plan
pub mod Refinement
pub mod Wires
pub mod Shift
pub mod Rain
mod Tests
