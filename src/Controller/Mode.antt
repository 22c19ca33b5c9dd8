-- ===== src/Controller/Mode.antt =====
-- Acionna::operation_mode, operation_pump_valves, update_clock, update_objects and run_every_second
-- (main/acionna/acionna.cpp). `now` is the time in seconds that the timer of the chip gives, `p1` and `p2` the
-- sensors' readings. A result of `none` is the valves' read outside their array.
use acionna.Prelude.{ℕ, ◌+◌, not, ◌&&◌, ◌==◌, if◌then◌else◌, Option, none, some, ℤ, u32}
use acionna.Types.{StatesMode, StatesMotor, is_enable, is_automatic, is_system_off, same_motor}
use acionna.Board.{Board}
use acionna.Pump.Update as PumpUpdate
use acionna.Valves.State.{set_valve_state, get_total_time_programmed}
use acionna.Valves.Sequence as ValvesSequence
use acionna.Clock.Clockin
use acionna.Pipe
use acionna.Controller.State.{Acionna}
use acionna.Controller.StopCheck.{operation_pump_stop_check, operation_pump_lock_down}
use acionna.Controller.Schedule.{operation_pump_start_match, operation_pump_start_match_optimized}

unfoldable pub update_clock : ℕ → Acionna → Acionna
update_clock now a =
    let dt = Clockin.fetch now a.dt in
    let t = u32 (a.time_day_sec + 1) in
    record a {
      dt = dt;
      epoch_time = dt.unix_time;
      uptime = u32 (a.uptime + 1);
      time_day_sec = if t == 86400 then 0 else t;
    }

module _ (b : Board) where
  open b use {World}

  -- The three parts of `operation_pump_valves`.
  unfoldable pub keep_valve : Acionna → World → Acionna × World
  keep_valve a w =
      let r = set_valve_state b a.valves.valve_current 1 a.valves w in
      if is_enable a.flag_check_valves
        && same_motor a.pump.state_motor StatesMotor.on_nominal_delta
        && is_automatic a.valves.state_valves
      then (record a { valves = r.0 }, r.1)
      else (a, w)

  unfoldable pub start_valves : Acionna → World → Acionna × World
  start_valves a w =
      let r = ValvesSequence.start b a.valves w in
      let total = get_total_time_programmed (r.0) in
      if is_system_off a.valves.state_valves
        && same_motor a.pump.state_motor StatesMotor.on_speeding_up
      then (
        record a {
          valves = r.0;
          pump = record (a.pump) {
            time_to_shutdown = u32 (total + 4294967286);
            time_to_shutdown_config = total;
          };
        },
        r.1,
      )
      else (a, w)

  unfoldable pub stop_valves : Acionna → World → Acionna × World
  stop_valves a w =
      let r = ValvesSequence.stop b a.pressure a.valves w in
      if is_automatic a.valves.state_valves
      then (if not (same_motor a.pump.state_motor StatesMotor.on_nominal_delta)
            && not (same_motor a.pump.state_motor StatesMotor.on_speeding_up)
          then (record a { valves = r.0; pressure = a.pipe1.pressure_mca }, r.1)
          else (record a { pressure = a.pipe1.pressure_mca }, w))
      else (a, w)

  unfoldable pub operation_pump_valves : Acionna → World → Acionna × World
  operation_pump_valves a w =
      let (a1, w1) = keep_valve a w in let (a2, w2) = start_valves a1 w1 in stop_valves a2 w2

  -- The `switch` of `operation_mode`; `operation_pump_optimized` is empty.
  unfoldable pub in_mode : StatesMode → Acionna → World → Acionna × World
  in_mode StatesMode.system_off a w = operation_pump_lock_down b a w
  in_mode StatesMode.system_ready a w = operation_pump_start_match b a w
  in_mode StatesMode.irrigation_pump_valves a w =
      let (a1, w1) = operation_pump_start_match b a w in operation_pump_valves a1 w1
  in_mode StatesMode.pump_optimized_control a w = operation_pump_start_match_optimized b a w

  unfoldable pub operation_mode : Acionna → World → Acionna × World
  operation_mode a w = let (a1, w1) = operation_pump_stop_check b a w in in_mode a1.state_mode a1 w1

  -- The pump, the pipes and the valves, in this order.
  unfoldable pub update_objects : ℤ → ℤ → Acionna → World → Option (Acionna × World)
  update_objects p1 p2 a w =
      let r = PumpUpdate.update b a.epoch_time a.pump w in
      let a1 = record a {
        pump = r.0;
        pipe1 = Pipe.update p1 a.pipe1;
        pipe2 = Pipe.update p2 a.pipe2;
      } in
      elim (ValvesSequence.update b a.epoch_time a.pressure a.valves (r.1)) [
        | none ↦ none
        | some s ↦ some (record a1 { valves = s.0 }, s.1)
      ]

  -- `run_every_second`, without its messages and sensors.
  unfoldable pub run_every_second : ℕ → ℤ → ℤ → Acionna → World → Option (Acionna × World)
  run_every_second now p1 p2 a w = elim (update_objects p1 p2 (update_clock now a) w) [
    | none ↦ none
    | some s ↦ some (operation_mode (s.0) (s.1))
  ]
