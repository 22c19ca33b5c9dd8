-- ===== src/Pump/State.antt =====
-- The data of class Pump (main/acionna/pump.hpp) and its private helpers that read and drive the
-- contactors.
use acionna.Prelude.{ℕ, ◌-◌, ◌*◌, Bool, false, List, if◌then◌else◌, replicate, u32}
use acionna.Types.{
  StatesFlag, disable, enable, StatesSwitch, off, on, StatesMotor, StartTypes, StopTypes, is_enable,
  start_type_of,
}
use acionna.Board.{Board}

-- A slot of `log_motors`; the array starts zeroed, so with `stop_types(0)`.
pub record LogMotor : Type 0 where
  pub start_mode : StartTypes
  pub time_start : ℕ
  pub time_elapsed_on : ℕ
  pub stop_reason : StopTypes

abbrev pub log_n : ℕ
log_n = 15

abbrev pub empty_log : LogMotor
empty_log = record {
  start_mode = start_type_of 0;
  time_start = 0;
  time_elapsed_on = 0;
  stop_reason = StopTypes.command_line_user;
}

pub record Pump : Type 0 where
  pub flag_check_output_pin_only : StatesFlag
  pub flag_check_timer : StatesFlag
  pub flag_check_wait_power_on : StatesFlag
  pub flag_check_k3_off : StatesFlag
  -- Times in seconds, `unsigned int`; `time_switch_k_change` in milliseconds.
  pub time_wait_power_on : ℕ
  pub time_wait_power_on_config : ℕ
  pub time_to_shutdown : ℕ
  pub time_to_shutdown_config : ℕ
  pub time_switch_k_change : ℕ
  pub time_delta_to_y_switch : ℕ
  pub time_delta_to_y_switch_config : ℕ
  -- How long the contactors took, in rounds of the wait loops.
  pub time_k1_on : ℕ
  pub time_k2_on : ℕ
  pub time_k3_on : ℕ
  pub time_k1_off : ℕ
  pub time_k2_off : ℕ
  pub time_k3_off : ℕ
  pub log_motors : List LogMotor
  pub state_motor : StatesMotor
  pub state_k1 : StatesSwitch
  pub state_k2 : StatesSwitch
  pub state_k3 : StatesSwitch
  pub state_k1_pin : StatesSwitch
  pub state_k2_pin : StatesSwitch
  pub state_k3_pin : StatesSwitch
  pub state_k1_dev : StatesSwitch
  pub state_k2_dev : StatesSwitch
  pub state_k3_dev : StatesSwitch
  pub state_rth : StatesSwitch
  pub start_y_delta_state : StartTypes
  pub flag_start_y_delta : StatesFlag
  pub time_on : ℕ
  pub time_off : ℕ
  pub time_last_stopped : ℕ

-- The members' initial values.
abbrev pub new : Pump
new = record {
  flag_check_output_pin_only = disable;
  flag_check_timer = enable;
  flag_check_wait_power_on = disable;
  flag_check_k3_off = disable;
  time_wait_power_on = 0;
  time_wait_power_on_config = 600;
  time_to_shutdown = 0;
  time_to_shutdown_config = 30 * 60;
  time_switch_k_change = 700;
  time_delta_to_y_switch = 0;
  time_delta_to_y_switch_config = 7;
  time_k1_on = 0;
  time_k2_on = 0;
  time_k3_on = 0;
  time_k1_off = 0;
  time_k2_off = 0;
  time_k3_off = 0;
  log_motors = replicate log_n empty_log;
  state_motor = StatesMotor.off_idle;
  state_k1 = off;
  state_k2 = off;
  state_k3 = off;
  state_k1_pin = off;
  state_k2_pin = off;
  state_k3_pin = off;
  state_k1_dev = off;
  state_k2_dev = off;
  state_k3_dev = off;
  state_rth = off;
  start_y_delta_state = StartTypes.y_delta_req;
  flag_start_y_delta = disable;
  time_on = 0;
  time_off = 0;
  time_last_stopped = 0;
}

-- The bound of every wait loop, `time_switch_k_change*1000` in `unsigned int`.
abbrev pub wait_limit : Pump → ℕ
wait_limit p = u32 (p.time_switch_k_change * 1000)

module _ (b : Board) where
  open b use {World, load_level, load_write, input_level, delay_us}

  abbrev pub drive_k : ℕ → Bool → World → World
  drive_k k level w = load_write (k - 1) level w

  -- The inputs are active low.
  abbrev pub read_k : ℕ → World → StatesSwitch
  read_k k w = if input_level (k - 1) w then off else on

  abbrev pub read_rth : World → StatesSwitch
  read_rth w = if input_level 3 w then off else on

  abbrev pub read_k_pin : ℕ → World → StatesSwitch
  read_k_pin k w = if load_level (k - 1) w then on else off

  abbrev pub delay_ms : ℕ → World → World
  delay_ms t w = delay_us (u32 (t * 1000)) w

  -- The constructor: every output goes low.
  unfoldable pub init : World → Pump × World
  init w = (new, load_write 2 false (load_write 1 false (load_write 0 false w)))

  unfoldable pub update_switches : Pump → World → Pump
  update_switches p w =
      let pin1 = read_k_pin 1 w in
      let pin2 = read_k_pin 2 w in
      let pin3 = read_k_pin 3 w in
      let dev1 = read_k 1 w in
      let dev2 = read_k 2 w in
      let dev3 = read_k 3 w in
      let pins = is_enable p.flag_check_output_pin_only in
      record p {
        state_k1_pin = pin1;
        state_k2_pin = pin2;
        state_k3_pin = pin3;
        state_k1_dev = dev1;
        state_k2_dev = dev2;
        state_k3_dev = dev3;
        state_rth = read_rth w;
        state_k1 = if pins then pin1 else dev1;
        state_k2 = if pins then pin2 else dev2;
        state_k3 = if pins then pin3 else dev3;
      }
