-- ===== src/Lib.antt =====
-- The controller of an irrigation pump: an ESP32 that drives a motor through three contactors
-- and eleven valves through an I2C module, watches the pressure of its pipes and the time of
-- the day, and takes commands.
--
-- Parts and files. Every second `Acionna::run_every_second` (main/acionna/acionna.cpp) advances
-- the clock, updates the pump, the pipes and the valves, and runs the operation mode; a mode
-- starts and stops the pump and the valves by the time matches, the stop conditions and the
-- motor's state.
--
-- - Prelude: names of the libraries, Boolean tests, C arrays as lists (Prelude/Lists), casts to
--   the unsigned widths (Prelude/Word), signed integers (Prelude/Int). Bits: the bits of a
--   word.
-- - Types: the enumerations of main/acionna/helper.hpp.
-- - Board: the pins, the wait, the I2C transfers and the `float` arithmetic, parameters of
--   everything else, and `IsLatched` and `IsWired`, what the code relies on: an output keeps
--   the level last written to it, and an I2C transfer does not change it. Panel: a concrete
--   board.
-- - History: the shift loop that both logs begin with.
-- - Pump (main/acionna/pump.hpp): Pump/State has the members and the pin access, Pump/Stop the
--   log, `stop` and `update_state_`, Pump/Start `start` in its modes, Pump/Update the timers,
--   the star-delta sequence and `update`. Proofs: Pump/Wait, Pump/Levels, Pump/Frame,
--   Pump/Motor, Pump/Timers and Pump/Interlock with its child modules.
-- - Expander (components/modules/pcy8575/pcy8575.cpp): the transfers of the I2C module and its
--   output word. Proofs: Expander/Laws. Expander/Store: a concrete module that stores its word.
-- - Valves (main/acionna/valves.hpp): Valves/State, Valves/Flow with the rates and times for
--   the rain, Valves/Log, and Valves/Sequence with `start`, `stop`, `find_next` and `update`.
--   Proofs: Valves/Opened, Valves/Find, Valves/FindInverted, Valves/Range, Valves/Safe,
--   Valves/Cycle, Valves/Shift, Valves/Rain. Valves/Plan is the abstract sequence, the sectors
--   still to come, and Valves/Refinement shows that the update carries it out.
-- - Pipe (main/acionna/pipepvc.hpp): the detection of air in the intake. Proofs: Pipe/Laws.
-- - Controller (main/acionna/acionna.cpp and .hpp): Controller/State has the members,
--   Controller/StopCheck the stop conditions and the lock, Controller/Schedule the time matches
--   and the optimized cycles, Controller/Mode the operation mode, the valves and the second's
--   update, Controller/Frames the parser of command frames, Controller/Settings the commands
--   $0x, Controller/Command $3x, $50 and $6x, Controller/Optimized $51, Controller/Checks $70,
--   Controller/Sectors $80, Controller/Answer the length of the lines that $80 prints for all
--   sectors, Controller/Module $83 to $89, Controller/Hex the hexadecimal words
--   of components/helper/convert_char_to_hex.c, Controller/Message the dispatch of
--   `handle_message`, Controller/SetClock $10, Controller/Session `run` with the fetch of a
--   message, and Controller/Steps the main loop (main/setup.cpp) as a relation: one step is a
--   second or a message. Proofs: Controller/Shutdown, Controller/Search, Controller/Day,
--   Controller/CommandLaws, Controller/CheckLaws, Controller/Rain, Controller/ModuleLaws,
--   Controller/SessionLaws, Controller/Wires, and Controller/Interlock: State has what holds
--   between two steps, Blind the start modes that need no look at the other contactor, Stops,
--   Matches and Second the operations of a second, Settings, Modes, Events, Programme, Sectors
--   and Message the commands, Reach the runs from power on.
-- - Clock (components/clock/date_time.cpp): dates and the seconds since 1970. Proofs:
--   Clock/Laws, Clock/Cycle with the days of a cycle of four years, Clock/RoundTrip and
--   Clock/Inverse. Clock/Copy: copies into another object.
-- - Clock/Clockin (components/clock/include/clockin.hpp): the clock of the device, a date and
--   an offset to the uptime of the chip. Proofs: Clock/Keeping, and Controller/DayClock for the
--   second of the day.
-- - Ds3231 (components/modules/ds3231/ds3231.cpp): the clock module with a battery, which the
--   controller's clock does not use. Proofs: Ds3231/Laws. Ds1307
--   (components/modules/ds1307/ds1307.cpp): an older module with the same digits. Proofs:
--   Ds1307/Laws.
-- - Aht10 (components/modules/aht10/aht10.cpp): a sensor of humidity and temperature. Proofs:
--   Aht10/Laws.
-- - Gpio (components/peripherals/gpio/gpio_driver.cpp): the driver of one pin over the
--   functions of the ESP-IDF, a parameter. Gpio/Wiring has the pins of the controller
--   (components/helper/include/pinout.hpp), Gpio/Wired builds its board from them and fills the
--   interface `Board`; Gpio/Created has the constructor's pins. Proofs of the driver: Gpio/Laws.
-- - Dht (components/modules/dht/dht.cpp): the sensor of humidity and temperature. Proofs:
--   Dht/Laws.
-- - MyString (components/helper/my_string.cpp): parts of a text up to a delimiter. Proofs:
--   MyString/Laws.
-- - Datetime (components/helper/datetime.cpp): the older class of dates; Datetime/Agreement
--   compares it with Clock.
-- - TimeOps (components/helper/time_operations.cpp): comparisons of dates and times, and the
--   second of the day. Proofs: TimeOps/Laws.
--
-- A method takes the object, and the board's world where it reaches hardware, and returns them.
-- `unsigned int`, `unsigned long` and `uint32_t` have 32 bits and wrap where the code can pass
-- the end; `int` members are unbounded.
--
-- Fuel. The wait loops of `start` and `stop` give up once their count passes
-- `time_switch_k_change*1000`, so that number plus one is enough. The loops of `find_next` have
-- 256, the number of values of `valve_current_`. The search of the optimized cycles has one
-- round more than there are events left.
--
-- `none`. A write outside an array gives `none`, and so does a read outside one that decides
-- what happens next; after it nothing is known. This is a frame of more than 20 bytes, which
-- passes the end of `command_str` and of `command_str_`, an index of a time match or a sector that
-- is not checked, a line of an answer that is longer than its array, and more samples than the
-- module's array holds. Controller/Steps has no step for it. Where such a read only feeds an
-- answer, the state stays. What `command_str_` holds at power on is an argument.
--
-- Not modelled: what the answers to messages show, the radio links, updates over the air, and
-- the other sensors. The uptime of the chip and the answer of the time server to $10:n; are
-- arguments. The families $2x, $4x and $9x touch none of the modelled members. The well's level
-- is compiled out.
pub mod Prelude
pub mod History
pub mod Types
pub mod Board
pub mod Pump
pub mod Panel
pub mod Bits
pub mod Expander
pub mod Valves
pub mod Pipe
pub mod Controller
pub mod Clock
pub mod TimeOps
pub mod Aht10
pub mod Ds1307
pub mod Ds3231
pub mod Gpio
pub mod Dht
pub mod MyString
pub mod Datetime
