-- ===== src/Controller/Interlock/Second.antt =====
-- Acionna::run_every_second and the interlock.
use acionna.Prelude.{ℕ, ◌≡◌, refl, sym, ap, Bool, true, not, ◌&&◌, Option, none, some, ℤ}
use mathlib.Core.Path.{subst}
use acionna.Types.{StatesMode, StatesMotor, is_enable, is_automatic, is_system_off, same_motor}
use acionna.Board.{Board, IsLatched, IsWired}
use acionna.Pump.Update as PumpUpdate
use acionna.Pump.Interlock.Events.{update-IsSafe}
use acionna.Valves.State.{Valves, set_valve_state}
use acionna.Valves.Sequence as ValvesSequence
use acionna.Valves.Range.{start-InRange, stop-InRange, set_valve_state-InRange}
use acionna.Valves.Safe.{update-InRange}
use acionna.Valves.Wires.{
  All, set_valve_state-SameLevels, start-SameLevels, stop-SameLevels, ValvesSame, update-SameLevels,
}
use acionna.Pipe
use acionna.Pipe.{Pipe, air_intake_detect}
use acionna.Controller.State.{Acionna}
use acionna.Controller.StopCheck.{operation_pump_stop_check}
use acionna.Controller.Schedule.{operation_pump_start_match, operation_pump_start_match_optimized}
use acionna.Controller.Mode.{
  update_clock, keep_valve, start_valves, stop_valves, operation_pump_valves, in_mode,
  operation_mode, update_objects, run_every_second,
}
use acionna.Controller.Interlock.Stops.{stop_check-IsWell, lock_down-IsWell}
use acionna.Controller.Interlock.Matches.{start_match-IsWell, optimized-IsWell}
use acionna.Controller.Interlock.State.{IsWell, pick, valves-IsWell}

-- There is a result, and it is well.
abbrev pub Returns : (b : Board) → Bool → Option (Acionna × b.World) → Type 0
Returns b enters m = (r : Acionna × b.World) × (m ≡ some r) × IsWell b enters r.0 r.1

module _ (b : Board) (l : IsLatched b) (c : IsWired b) {enters : Bool} where
  open b use {World}

  keep_valve-IsWell :
      (a : Acionna) (w : World)
      → IsWell b enters a w
      → let r = keep_valve b a w in IsWell b enters r.0 r.1
  unfolding keep_valve
  keep_valve-IsWell a w h =
      let id = a.valves.valve_current in
      let r = set_valve_state b id 1 a.valves w in
      pick b
        (is_enable a.flag_check_valves
          && same_motor a.pump.state_motor StatesMotor.on_nominal_delta
          && is_automatic a.valves.state_valves)
        _ _
        (valves-IsWell b a (r.0) w (r.1) (set_valve_state-SameLevels b l c id 1 a.valves w)
          (set_valve_state-InRange b id 1 a.valves w h.sectors) h)
        h

  start_valves-IsWell :
      (a : Acionna) (w : World)
      → IsWell b enters a w
      → let r = start_valves b a w in IsWell b enters r.0 r.1
  unfolding start_valves
  start_valves-IsWell a w h =
      let r = ValvesSequence.start b a.valves w in
      let h1 =
        valves-IsWell b a (r.0) w (r.1) (start-SameLevels b l c a.valves w)
          (start-InRange b a.valves w h.sectors.eleven) h in
      pick b
        (is_system_off a.valves.state_valves
          && same_motor a.pump.state_motor StatesMotor.on_speeding_up)
        _ _
        (record {
          mode = h1.mode;
          pump_safe = record {
            interlocked = h1.pump_safe.interlocked;
            sequence = h1.pump_safe.sequence;
          };
          sectors = h1.sectors;
          schedule = h1.schedule;
        })
        h

  -- With another pressure.
  pressure-IsWell :
      (a : Acionna) (p : ℤ) (w : World)
      → IsWell b enters a w
      → IsWell b enters (record a { pressure = p }) w
  pressure-IsWell a p w h = record {
    mode = h.mode;
    pump_safe = h.pump_safe;
    sectors = h.sectors;
    schedule = h.schedule;
  }

  stop_valves-IsWell :
      (a : Acionna) (w : World)
      → IsWell b enters a w
      → let r = stop_valves b a w in IsWell b enters r.0 r.1
  unfolding stop_valves
  stop_valves-IsWell a w h =
      let r = ValvesSequence.stop b a.pressure a.valves w in
      let p = a.pipe1.pressure_mca in
      pick b (is_automatic a.valves.state_valves) _ _
        (pick b
          (not (same_motor a.pump.state_motor StatesMotor.on_nominal_delta)
            && not (same_motor a.pump.state_motor StatesMotor.on_speeding_up))
          _ _
          (pressure-IsWell (record a { valves = r.0 }) p (r.1)
            (valves-IsWell b a (r.0) w (r.1) (stop-SameLevels b l c a.pressure a.valves w)
              (stop-InRange b a.pressure a.valves w h.sectors.eleven) h))
          (pressure-IsWell a p w h))
        h

  pump_valves-IsWell :
      (a : Acionna) (w : World)
      → IsWell b enters a w
      → let r = operation_pump_valves b a w in IsWell b enters r.0 r.1
  unfolding operation_pump_valves
  pump_valves-IsWell a w h =
      let (a1, w1) = keep_valve b a w in
      let (a2, w2) = start_valves b a1 w1 in
      stop_valves-IsWell a2 w2 (start_valves-IsWell a1 w1 (keep_valve-IsWell a w h))

  in_mode-IsWell :
      (m : StatesMode) (a : Acionna) (w : World)
      → (m ≡ StatesMode.pump_optimized_control → enters ≡ true)
      → IsWell b enters a w
      → let r = in_mode b m a w in IsWell b enters r.0 r.1
  unfolding in_mode
  in_mode-IsWell StatesMode.system_off a w o h = lock_down-IsWell b l a w h
  in_mode-IsWell StatesMode.system_ready a w o h = start_match-IsWell b l a w h
  in_mode-IsWell StatesMode.irrigation_pump_valves a w o h =
      let r = operation_pump_start_match b a w in
      pump_valves-IsWell (r.0) (r.1) (start_match-IsWell b l a w h)
  in_mode-IsWell StatesMode.pump_optimized_control a w o h =
      let r = operation_pump_start_match_optimized b a w in
      subst (λ x. IsWell b x r.0 r.1) (sym (o refl))
        (optimized-IsWell b l a w (subst (λ x. IsWell b x a w) (o refl) h))

  operation_mode-IsWell :
      (a : Acionna) (w : World)
      → IsWell b enters a w
      → let r = operation_mode b a w in IsWell b enters r.0 r.1
  unfolding operation_mode
  operation_mode-IsWell a w h =
      let r = operation_pump_stop_check b a w in
      let h1 = stop_check-IsWell b l a w h in in_mode-IsWell r.0.state_mode (r.0) (r.1) h1.mode h1

  update_objects-Returns :
      (p1 p2 : ℤ) (a : Acionna) (w : World)
      → IsWell b enters a w
      → Returns b enters (update_objects b p1 p2 a w)
  unfolding update_objects
  update_objects-Returns p1 p2 a w h =
      let r = PumpUpdate.update b a.epoch_time a.pump w in
      let a1 = record a {
        pump = r.0;
        pipe1 = Pipe.update p1 a.pipe1;
        pipe2 = Pipe.update p2 a.pipe2;
      } in
      let h1 : IsWell b enters a1 (r.1) = record {
        mode = h.mode;
        pump_safe = update-IsSafe b l a.epoch_time a.pump w h.pump_safe;
        sectors = h.sectors;
        schedule = h.schedule;
      } in
      let (s, e, i) = update-InRange b a.epoch_time a.pressure a.valves (r.1) h.sectors in
      let same =
        subst (λ m. All (ValvesSame b l c (r.1)) m) e
          (update-SameLevels b l c a.epoch_time a.pressure a.valves (r.1)) in
      (
        (record a1 { valves = s.0 }, s.1),
        ap
            (λ (m : Option (Valves × World)). elim m as (λ x. Option (Acionna × World)) [
              | none ↦ none
              | some t ↦ some (record a1 { valves = t.0 }, t.1)
            ])
            e,
        valves-IsWell b a1 (s.0) (r.1) (s.1) same i h1,
      )

  clock-IsWell :
      (now : ℕ) (a : Acionna) (w : World)
      → IsWell b enters a w
      → IsWell b enters (update_clock now a) w
  unfolding update_clock
  clock-IsWell now a w h = record {
    mode = h.mode;
    pump_safe = h.pump_safe;
    sectors = h.sectors;
    schedule = h.schedule;
  }

  -- On a board whose outputs keep their level, I2C transfers included, the operations of a second
  -- return, and what is well stays well, in every mode: K2 and K3 are not both high, the sectors'
  -- index is in range, and the set start modes drive neither K2 nor K3 directly.
  pub run_every_second-IsWell :
      (now : ℕ) (p1 p2 : ℤ) (a : Acionna) (w : World)
      → IsWell b enters a w
      → Returns b enters (run_every_second b now p1 p2 a w)
  unfolding run_every_second
  run_every_second-IsWell now p1 p2 a w h =
      let (s, e, i) =
        update_objects-Returns p1 p2 (update_clock now a) w (clock-IsWell now a w h) in
      (
        operation_mode b (s.0) (s.1),
        ap
            (λ (m : Option (Acionna × World)). elim m as (λ x. Option (Acionna × World)) [
              | none ↦ none
              | some t ↦ some (operation_mode b (t.0) (t.1))
            ])
            e,
        operation_mode-IsWell (s.0) (s.1) i,
      )
