-- ===== src/Controller/Schedule.antt =====
-- Acionna::operation_pump_start_match and operation_pump_start_match_optimized
-- (main/acionna/acionna.cpp). `time_match_list` and `event` are read at indices below 9; the
-- signed indices of `optimized` are numbers, since the code only counts them up from 0.
use acionna.Prelude.{
  ℕ, zero, suc, ◌+◌, ◌-◌, Bool, not, ◌&&◌, ◌==◌, ltb, leb, if◌then◌else◌, List, get_or, u32,
}
use acionna.Types.{StatesFlag, disable, enable, is_enable, StartTypes, StopTypes}
use acionna.Board.{Board}
use acionna.Pump.Start as PumpStart
use acionna.Controller.State.{
  Acionna, Optimized, OptimizedEvent, TimeMatch, no_match, first_event, is_idle, stop_pump,
}

-- The sweep of the list: the last index whose time is now, if there is one.
unfoldable pub sweep : ℕ → List TimeMatch → ℕ → ℕ → StatesFlag × ℕ → StatesFlag × ℕ
sweep zero list now i r = r
sweep (suc n) list now i r =
    sweep n list now (i + 1) (if (get_or list i no_match).time_match == now then (enable, i) else r)

abbrev pub current_event : Optimized → OptimizedEvent
current_event o = get_or o.event o.event_i first_event

-- `if(seconds) pump1_.time_to_shutdown = seconds;`
abbrev pub with_shutdown : ℕ → Acionna → Acionna
with_shutdown seconds a =
    if seconds == 0 then a else record a { pump = record (a.pump) { time_to_shutdown = seconds } }

-- The loop's condition.
abbrev pub searching : Acionna → Bool
searching a =
    ltb a.optimized.event_i a.optimized.event_n && not (is_enable a.optimized.flag_time_next_config)

-- As many rounds as events are left, and one.
abbrev pub search_fuel : Acionna → ℕ
search_fuel a = suc (a.optimized.event_n - a.optimized.event_i)

module _ (b : Board) where
  open b use {World}

  abbrev pub start_pump : StartTypes → Acionna → World → Acionna × World
  start_pump mode a w =
      let r = PumpStart.start b mode a.epoch_time a.pump w in (record a { pump = r.1.0 }, r.1.1)

  abbrev pub start_if_idle : StartTypes → Acionna → World → Acionna × World
  start_if_idle mode a w = if is_idle a.pump.state_motor then start_pump mode a w else (a, w)

  unfoldable pub operation_pump_start_match : Acionna → World → Acionna × World
  operation_pump_start_match a w =
      let found = sweep a.time_match_n a.time_match_list a.time_day_sec 0 (a.flag_time_match, 0) in
      let entry = get_or a.time_match_list found.1 no_match in
      let a1 = record a { flag_time_match = disable } in
      let r = start_pump entry.auto_start_mode a1 w in
      if is_enable a.flag_check_time_match && is_enable found.0
      then if is_idle a1.pump.state_motor
        then (with_shutdown entry.time_to_shutdown (r.0), r.1)
        else (a1, w)
      else (a, w)

  -- A cycle of the current event: `start_mode`, the counters and the time to stay on.
  unfoldable pub run_cycle : Acionna → World → Acionna × World
  run_cycle a w =
      let e = current_event a.optimized in
      let r = start_if_idle e.start_mode a w in
      let a1 = record (r.0) {
        optimized = record (a.optimized) {
          flag_time_next_config = enable;
          cycle_i = a.optimized.cycle_i + 1;
        };
      } in
      (with_shutdown e.time_to_shutdown a1, r.1)

  -- The body of the `do` loop.
  unfoldable pub search_round : Acionna → World → Acionna × World
  search_round a w =
      let o = a.optimized in
      if ltb o.event_i o.event_n
      then if ltb o.cycle_i (current_event o).cycles_n
        then run_cycle a w
        else (record a { optimized = record o { event_i = o.event_i + 1; cycle_i = 0 } }, w)
      else (record a { optimized = record o { flag_status_running = disable } }, w)

  -- do { ... } while(...), on fuel.
  unfoldable pub search : ℕ → Acionna → World → Acionna × World
  search zero a w = (a, w)
  search (suc fuel) a w =
      let r = search_round a w in
      let rest = search fuel (r.0) (r.1) in if searching (r.0) then rest else r

  -- The comparison with the start time and the next time.
  unfoldable pub match_optimized : Acionna → Acionna
  match_optimized a =
      let o = a.optimized in
      if o.time_match_start == a.time_day_sec
      then record a {
        flag_time_match_optimized = enable;
        optimized = record o { event_i = 0; cycle_i = 0; flag_status_running = enable };
      }
      else if (o.time_match_next == a.time_day_sec) && is_idle a.pump.state_motor
      then record a { flag_time_match_optimized = enable }
      else a

  unfoldable pub search_if_matched : Acionna → World → Acionna × World
  search_if_matched a w =
      let a1 = record a { flag_time_match_optimized = disable } in
      if is_enable a.flag_time_match_optimized then search (search_fuel a1) a1 w else (a, w)

  -- The next start is `time_delay` after the motor has gone off.
  unfoldable pub config_next : Acionna → Acionna
  config_next a =
      let o = a.optimized in
      if is_enable o.flag_time_next_config && is_idle a.pump.state_motor
      then record a {
        optimized = record o {
          flag_time_next_config = disable;
          time_match_next = u32 (a.time_day_sec + o.time_delay);
        };
      }
      else a

  -- End of the process when the red time begins.
  unfoldable pub red_time : Acionna → World → Acionna × World
  red_time a w =
      let o = a.optimized in
      let r = stop_pump b StopTypes.red_time a w in
      if o.time_red == a.time_day_sec
      then if not (is_idle a.pump.state_motor)
        then (record (r.0) { optimized = record o { flag_time_next_config = disable } }, r.1)
        else if leb o.time_red o.time_match_next
        then (
          record a { optimized = record o { time_match_next = u32 (a.time_day_sec + 4294967236) } },
          w,
        )
        else (a, w)
      else (a, w)

  unfoldable pub operation_pump_start_match_optimized : Acionna → World → Acionna × World
  operation_pump_start_match_optimized a w =
      if is_enable a.flag_check_time_match_optimized
      then (let r = search_if_matched (match_optimized a) w in red_time (config_next (r.0)) (r.1))
      else (a, w)
