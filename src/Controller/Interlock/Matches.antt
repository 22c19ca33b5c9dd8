-- ===== src/Controller/Interlock/Matches.antt =====
-- The starts at the set times and of the optimized mode, and the interlock.
use acionna.Prelude.{
  ℕ, zero, suc, ◌+◌, ◌<◌, ◌≡◌, refl, sym, inl, inr, Bool, true, false, not, ◌&&◌, Bool-cases, arith,
  ◌==◌, ltb, leb, if◌then◌else◌, get_or, u32,
}
use mathlib.Core.Path.{subst}
use acionna.Types.{StatesFlag, disable, enable, StopTypes, is_enable}
use acionna.Board.{Board, IsLatched}
use acionna.Controller.State.{Acionna, Optimized, no_match, is_idle, stop_pump}
use acionna.Controller.Schedule.{
  sweep, current_event, searching, search_fuel, start_pump, start_if_idle,
  operation_pump_start_match, run_cycle, search_round, search, match_optimized, search_if_matched,
  config_next, red_time, operation_pump_start_match_optimized,
}
use acionna.Controller.Interlock.State.{
  IsWell, IsSchedule, match_mode, event_mode, pick, shutdown-IsWell, stop-IsWell, start_pump-IsWell,
}

module _ (b : Board) (l : IsLatched b) {enters : Bool} where
  open b use {World}

  pub start_match-IsWell :
      (a : Acionna) (w : World)
      → IsWell b enters a w
      → let r = operation_pump_start_match b a w in IsWell b enters r.0 r.1
  unfolding operation_pump_start_match
  start_match-IsWell a w h =
      let found = sweep a.time_match_n a.time_match_list a.time_day_sec 0 (a.flag_time_match, 0) in
      let entry = get_or a.time_match_list found.1 no_match in
      let a1 = record a { flag_time_match = disable } in
      let r = start_pump b entry.auto_start_mode a1 w in
      let h1 : IsWell b enters a1 w = record {
        mode = h.mode;
        pump_safe = h.pump_safe;
        sectors = h.sectors;
        schedule = h.schedule;
      } in
      pick b (is_enable a.flag_check_time_match && is_enable found.0) _ _
        (pick b (is_idle a.pump.state_motor) _ _
          (shutdown-IsWell b entry.time_to_shutdown (r.0) (r.1) (
            start_pump-IsWell b l entry.auto_start_mode a1 w
              (match_mode a.time_match_list found.1 h.schedule.matches) h1))
          h1)
        h

  pick_left :
      (t : Bool) (x y : Acionna) (w : World)
      → IsWell b enters x w
      → IsWell b enters y w
      → IsWell b enters (if t then x else y) w
  pick_left true x y w h k = h
  pick_left false x y w h k = k

  -- Other counters and flags of the optimized mode.
  counters-IsWell :
      (a : Acionna) (o : Optimized) (f : StatesFlag) (w : World)
      → o.event ≡ a.optimized.event
      → o.event_n ≡ a.optimized.event_n
      → IsWell b enters a w
      → IsWell b enters (record a { optimized = o; flag_time_match_optimized = f }) w
  counters-IsWell a o f w e n h = record {
    mode = h.mode;
    pump_safe = h.pump_safe;
    sectors = h.sectors;
    schedule =
        subst (λ x. IsSchedule enters a.time_match_list x o.event_n) (sym e)
          (subst (λ x. IsSchedule enters a.time_match_list a.optimized.event x) (sym n) h.schedule);
  }

-- The optimized mode.
module _ (b : Board) (l : IsLatched b) where
  open b use {World}

  run_cycle-IsWell :
      (a : Acionna) (w : World)
      → a.optimized.event_i < a.optimized.event_n
      → IsWell b true a w
      → let r = run_cycle b a w in IsWell b true r.0 r.1
  unfolding run_cycle
  run_cycle-IsWell a w k h =
      let e = current_event a.optimized in
      let r = start_if_idle b e.start_mode a w in
      let mode =
        event_mode a.optimized.event a.optimized.event_i (h.schedule.modes refl)
          (omega (arith, h.schedule.nine, h.schedule.bound)) in
      let h1 =
        pick b (is_idle a.pump.state_motor) _ _ (start_pump-IsWell b l e.start_mode a w mode h) h in
      shutdown-IsWell b e.time_to_shutdown _ (r.1) (record {
        mode = h1.mode;
        pump_safe = h1.pump_safe;
        sectors = h1.sectors;
        schedule = record {
          matches = h1.schedule.matches;
          modes = h.schedule.modes;
          nine = h.schedule.nine;
          bound = h.schedule.bound;
        };
      })

  round-IsWell :
      (a : Acionna) (w : World)
      → IsWell b true a w
      → let r = search_round b a w in IsWell b true r.0 r.1
  unfolding search_round
  round-IsWell a w h =
      let o = a.optimized in
      let f = a.flag_time_match_optimized in
      elim (Bool-cases (ltb o.event_i o.event_n)) [
        | inr e ↦
            rw e
              (counters-IsWell b l a (record o { flag_status_running = disable }) f w refl refl h)
        | inl e ↦ rw e (
            pick b (ltb o.cycle_i (current_event o).cycles_n) _ _
              (run_cycle-IsWell a w (ground arith) h)
              (counters-IsWell b l a (record o { event_i = o.event_i + 1; cycle_i = 0 }) f w refl
                refl h))
      ]

  search-IsWell :
      (fuel : ℕ) (a : Acionna) (w : World)
      → IsWell b true a w
      → let r = search b fuel a w in IsWell b true r.0 r.1
  unfolding search
  search-IsWell zero a w h = h
  search-IsWell (suc fuel) a w h =
      let r = search_round b a w in
      pick b (searching (r.0)) _ _ (search-IsWell fuel (r.0) (r.1) (round-IsWell a w h))
        (round-IsWell a w h)

  match_optimized-IsWell :
      (a : Acionna) (w : World) → IsWell b true a w → IsWell b true (match_optimized b a) w
  unfolding match_optimized
  match_optimized-IsWell a w h =
      let o = a.optimized in
      let o1 = record o { event_i = 0; cycle_i = 0; flag_status_running = enable } in
      pick_left b l (o.time_match_start == a.time_day_sec) _ _ w
        (counters-IsWell b l a o1 enable w refl refl h)
        (pick_left b l ((o.time_match_next == a.time_day_sec) && is_idle a.pump.state_motor) _ _ w
          (counters-IsWell b l a o enable w refl refl h) h)

  config_next-IsWell :
      (a : Acionna) (w : World) → IsWell b true a w → IsWell b true (config_next b a) w
  unfolding config_next
  config_next-IsWell a w h =
      let o = a.optimized in
      let o1 = record o {
        flag_time_next_config = disable;
        time_match_next = u32 (a.time_day_sec + o.time_delay);
      } in
      pick_left b l (is_enable o.flag_time_next_config && is_idle a.pump.state_motor) _ _ w
        (counters-IsWell b l a o1 a.flag_time_match_optimized w refl refl h) h

  red_time-IsWell :
      (a : Acionna) (w : World)
      → IsWell b true a w
      → let r = red_time b a w in IsWell b true r.0 r.1
  unfolding red_time
  red_time-IsWell a w h =
      let o = a.optimized in
      let f = a.flag_time_match_optimized in
      let r = stop_pump b StopTypes.red_time a w in
      let h1 = stop-IsWell b l StopTypes.red_time a w h in
      pick b (o.time_red == a.time_day_sec) _ _
        (pick b (not (is_idle a.pump.state_motor)) _ _
          (counters-IsWell b l (r.0) (record o { flag_time_next_config = disable }) f (r.1) refl
            refl h1)
          (pick b (leb o.time_red o.time_match_next) _ _
            (counters-IsWell b l a
              (record o { time_match_next = u32 (a.time_day_sec + 4294967236) }) f w refl refl h)
            h))
        h

  search_if-IsWell :
      (a : Acionna) (w : World)
      → IsWell b true a w
      → let r = search_if_matched b a w in IsWell b true r.0 r.1
  unfolding search_if_matched
  search_if-IsWell a w h =
      let a1 = record a { flag_time_match_optimized = disable } in
      pick b (is_enable a.flag_time_match_optimized) _ _
        (search-IsWell (search_fuel a1) a1 w
          (counters-IsWell b l a a.optimized disable w refl refl h))
        h

  pub optimized-IsWell :
      (a : Acionna) (w : World)
      → IsWell b true a w
      → let r = operation_pump_start_match_optimized b a w in IsWell b true r.0 r.1
  unfolding operation_pump_start_match_optimized
  optimized-IsWell a w h =
      let a1 = match_optimized b a in
      let r = search_if_matched b a1 w in
      let h1 = search_if-IsWell a1 w (match_optimized-IsWell a w h) in
      pick b (is_enable a.flag_check_time_match_optimized) _ _
        (red_time-IsWell (config_next b (r.0)) (r.1) (config_next-IsWell (r.0) (r.1) h1)) h
