-- ===== src/Controller/State.antt =====
-- The members of class Acionna (main/acionna/acionna.hpp) that its operations every second and its
-- commands use.
use acionna.Prelude.{ℕ, Bool, ◌||◌, List, ℤ, pos, replicate, ◌*◌, ◌+◌}
use acionna.Types.{
  StatesFlag, disable, enable, StatesMode, StatesMotor, same_motor, StartTypes, direct_k2,
  start_type_of, StopTypes,
}
use acionna.Board.{Board, Fpu}
use acionna.Pump.State.{Pump}
use acionna.Pump.State as PumpState
use acionna.Pump.Stop as PumpStop
use acionna.Valves.State.{Valves}
use acionna.Valves.State as ValvesState
use acionna.Clock.Clockin
use acionna.Clock.Clockin.{Clockin}
use acionna.Pipe
use acionna.Pipe.{Pipe}

pub record TimeMatch : Type 0 where
  pub time_match : ℕ
  pub time_to_shutdown : ℕ
  pub auto_start_mode : StartTypes

pub record OptimizedEvent : Type 0 where
  pub start_mode : StartTypes
  pub time_to_shutdown : ℕ
  pub cycles_n : ℕ

pub record Optimized : Type 0 where
  pub time_match_start : ℕ
  pub time_match_next : ℕ
  pub time_delay : ℕ
  pub time_red : ℕ
  pub flag_time_next_config : StatesFlag
  pub flag_status_running : StatesFlag
  pub cycle_i : ℕ
  pub event_i : ℕ
  pub event_n : ℕ
  pub event : List OptimizedEvent

pub record Acionna : Type 0 where
  pub state_mode : StatesMode
  pub pump : Pump
  pub pipe1 : Pipe
  pub pipe2 : Pipe
  pub valves : Valves
  pub flag_check_k1 : StatesFlag
  pub flag_check_k2 : StatesFlag
  pub flag_check_k3 : StatesFlag
  pub flag_check_pressure_low : StatesFlag
  pub flag_check_pressure_low_k1 : StatesFlag
  pub flag_check_pressure_low_k2 : StatesFlag
  pub flag_check_pressure_low_delta : StatesFlag
  pub flag_check_pressure_high : StatesFlag
  pub flag_check_pressure_valve : StatesFlag
  pub flag_check_time_match : StatesFlag
  pub flag_check_thermal_relay : StatesFlag
  pub flag_check_timer : StatesFlag
  pub flag_check_valves : StatesFlag
  pub flag_check_time_match_optimized : StatesFlag
  pub flag_time_match_optimized : StatesFlag
  pub flag_time_match : StatesFlag
  pub flag_json_data_back : StatesFlag
  pub time_match_n : ℕ
  pub time_match_list : List TimeMatch
  pub dt : Clockin
  pub uptime : ℕ
  pub time_day_sec : ℕ
  pub epoch_time : ℕ
  pub pressure : ℤ
  pub optimized : Optimized

abbrev pub no_match : TimeMatch
no_match = record { time_match = 0; time_to_shutdown = 0; auto_start_mode = start_type_of 0 }

abbrev pub first_event : OptimizedEvent
first_event = record { start_mode = direct_k2; time_to_shutdown = 0; cycles_n = 1 }

-- The members' initial values.
abbrev pub new : Fpu → Acionna
new f = record {
  state_mode = StatesMode.system_ready;
  pump = PumpState.new;
  pipe1 = Pipe.new;
  pipe2 = Pipe.new;
  valves = ValvesState.new f;
  flag_check_k1 = disable;
  flag_check_k2 = disable;
  flag_check_k3 = disable;
  flag_check_pressure_low = enable;
  flag_check_pressure_low_k1 = disable;
  flag_check_pressure_low_k2 = enable;
  flag_check_pressure_low_delta = enable;
  flag_check_pressure_high = enable;
  flag_check_pressure_valve = disable;
  flag_check_time_match = disable;
  flag_check_thermal_relay = disable;
  flag_check_timer = enable;
  flag_check_valves = disable;
  flag_check_time_match_optimized = enable;
  flag_time_match_optimized = disable;
  flag_time_match = disable;
  flag_json_data_back = disable;
  time_match_n = 1;
  time_match_list = replicate 9 no_match;
  dt = Clockin.new;
  uptime = 0;
  time_day_sec = 0;
  epoch_time = 0;
  pressure = pos 0;
  optimized = record {
    time_match_start = 21 * 60 * 60 + 31 * 60;
    time_match_next = 0;
    time_delay = 5 * 60;
    time_red = 6 * 3600;
    flag_time_next_config = disable;
    flag_status_running = disable;
    cycle_i = 0;
    event_i = 0;
    event_n = 1;
    event = replicate 9 first_event;
  };
}

-- The three motor states that the stop conditions list, and `on_nominal_k2`, which some omit.
abbrev pub runs_main : StatesMotor → Bool
runs_main m =
    same_motor m StatesMotor.on_nominal_k1
    || same_motor m StatesMotor.on_nominal_delta
    || same_motor m StatesMotor.on_speeding_up

abbrev pub runs_any : StatesMotor → Bool
runs_any m =
    same_motor m StatesMotor.on_nominal_k1
    || same_motor m StatesMotor.on_nominal_k2
    || same_motor m StatesMotor.on_nominal_delta
    || same_motor m StatesMotor.on_speeding_up

abbrev pub is_idle : StatesMotor → Bool
is_idle m = same_motor m StatesMotor.off_idle

module _ (b : Board) where
  open b use {World}

  -- pump1_.stop(reason)
  abbrev pub stop_pump : StopTypes → Acionna → World → Acionna × World
  stop_pump reason a w =
      let r = PumpStop.stop b reason a.epoch_time a.pump w in (record a { pump = r.0 }, r.1)
