-- ===== src/Types.antt =====
-- The enumerations of main/acionna/helper.hpp, with their `==` and their `static_cast<int>`.
use acionna.Prelude.{ℕ, Bool, true, false, ◌==◌, if◌then◌else◌}

pub data StatesFlag : Type 0 where
  disable enable : StatesFlag

pub data StatesSwitch : Type 0 where
  off on : StatesSwitch

pub data StatesValves : Type 0 where
  system_off automatic_switch auto_test : StatesValves

pub data StatesMotor : Type 0 where
  off_idle on_nominal_k1 on_nominal_k2 on_speeding_up on_nominal_delta : StatesMotor
  off_k3_short_circuit off_thermal_activated undefined : StatesMotor

pub data StartTypes : Type 0 where
  direct_k1 direct_k2 direct_k3 to_delta to_y y_delta_req : StartTypes
  -- Any other value that a `static_cast<start_types>` of a command's digit gives.
  unlisted : ℕ → StartTypes

pub data StopTypes : Type 0 where
  command_line_user timeout pressure_high pressure_low thermal_relay contactor_not_on : StopTypes
  level_low red_time system_lock other : StopTypes

pub data StatesMode : Type 0 where
  system_off system_ready irrigation_pump_valves pump_optimized_control : StatesMode

abbrev pub is_enable : StatesFlag → Bool
is_enable enable = true
is_enable disable = false

abbrev pub is_on : StatesSwitch → Bool
is_on on = true
is_on off = false

abbrev pub is_automatic : StatesValves → Bool
is_automatic StatesValves.automatic_switch = true
is_automatic _ = false

abbrev pub is_system_off : StatesValves → Bool
is_system_off StatesValves.system_off = true
is_system_off _ = false

abbrev pub is_to_y : StartTypes → Bool
is_to_y to_y = true
is_to_y _ = false

abbrev pub motor_code : StatesMotor → ℕ
motor_code off_idle = 0
motor_code on_nominal_k1 = 1
motor_code on_nominal_k2 = 2
motor_code on_speeding_up = 3
motor_code on_nominal_delta = 4
motor_code off_k3_short_circuit = 5
motor_code off_thermal_activated = 6
motor_code undefined = 7

abbrev pub same_motor : StatesMotor → StatesMotor → Bool
same_motor a b = motor_code a == motor_code b

-- `static_cast<start_types>(n)`: the enumeration begins at 1.
abbrev pub start_type_of : ℕ → StartTypes
start_type_of n =
    if n == 1
    then direct_k1
    else if n == 2
    then direct_k2
    else if n == 3
    then direct_k3
    else if n == 4
    then to_delta
    else if n == 5
    then to_y
    else if n == 6
    then y_delta_req
    else unlisted n
