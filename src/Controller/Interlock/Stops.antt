-- ===== src/Controller/Interlock/Stops.antt =====
-- The stop conditions and the lock, and the interlock.
use acionna.Prelude.{Bool, not, ◌&&◌, ◌==◌, pos, ltb_ℤ}
use acionna.Types.{StatesFlag, StatesMotor, StopTypes, is_enable, is_on, same_motor}
use acionna.Board.{Board, IsLatched}
use acionna.Pipe.{Pipe, air_intake_detect}
use acionna.Controller.State.{Acionna, runs_main, runs_any}
use acionna.Controller.StopCheck.{
  check_timer, check_pressure_high, check_air1, check_air2, check_thermal,
  operation_pump_stop_check, operation_pump_lock_down,
}
use acionna.Controller.Interlock.State.{IsWell, pick, stop-IsWell}

module _ (b : Board) (l : IsLatched b) {enters : Bool} where
  open b use {World}

  -- With other pipes.
  pipes-IsWell :
      (a : Acionna) (x y : Pipe) (w : World)
      → IsWell b enters a w
      → IsWell b enters (record a { pipe1 = x; pipe2 = y }) w
  pipes-IsWell a x y w h = record {
    mode = h.mode;
    pump_safe = h.pump_safe;
    sectors = h.sectors;
    schedule = h.schedule;
  }

  check_timer-IsWell :
      (a : Acionna) (w : World)
      → IsWell b enters a w
      → let r = check_timer b a w in IsWell b enters r.0 r.1
  unfolding check_timer
  check_timer-IsWell a w h =
      pick b
        (is_enable a.flag_check_timer
          && runs_any a.pump.state_motor
          && (a.pump.time_to_shutdown == 0))
        _ _ (stop-IsWell b l StopTypes.timeout a w h) h

  check_high-IsWell :
      (a : Acionna) (w : World)
      → IsWell b enters a w
      → let r = check_pressure_high b a w in IsWell b enters r.0 r.1
  unfolding check_pressure_high
  check_high-IsWell a w h =
      pick b
        (is_enable a.flag_check_pressure_high
          && ltb_ℤ a.pipe1.pressure_max a.pipe1.pressure_mca
          && runs_main a.pump.state_motor)
        _ _ (stop-IsWell b l StopTypes.pressure_high a w h) h

  check_thermal-IsWell :
      (a : Acionna) (w : World)
      → IsWell b enters a w
      → let r = check_thermal b a w in IsWell b enters r.0 r.1
  unfolding check_thermal
  check_thermal-IsWell a w h =
      pick b
        (is_enable a.flag_check_thermal_relay
          && is_on a.pump.state_rth
          && not (same_motor a.pump.state_motor StatesMotor.off_thermal_activated))
        _ _ (stop-IsWell b l StopTypes.thermal_relay a w h) h

  check_air1-IsWell :
      (f : StatesFlag) (ref : StatesMotor) (a : Acionna) (w : World)
      → IsWell b enters a w
      → let r = check_air1 b f ref a w in IsWell b enters r.0 r.1
  unfolding check_air1
  check_air1-IsWell f ref a w h =
      let r = air_intake_detect a.pump.state_motor ref (pos 60) a.pipe1 in
      let a1 = record a { pipe1 = r.1 } in
      let h1 = pipes-IsWell a (r.1) a.pipe2 w h in
      pick b (is_enable a.flag_check_pressure_low && is_enable f) _ _
        (pick b (r.0 == 0) _ _ h1 (stop-IsWell b l StopTypes.pressure_low a1 w h1)) h

  check_air2-IsWell :
      (f : StatesFlag) (ref : StatesMotor) (a : Acionna) (w : World)
      → IsWell b enters a w
      → let r = check_air2 b f ref a w in IsWell b enters r.0 r.1
  unfolding check_air2
  check_air2-IsWell f ref a w h =
      let r = air_intake_detect a.pump.state_motor ref (pos 60) a.pipe2 in
      let a1 = record a { pipe2 = r.1 } in
      let h1 = pipes-IsWell a a.pipe1 (r.1) w h in
      pick b (is_enable a.flag_check_pressure_low && is_enable f) _ _
        (pick b (r.0 == 0) _ _ h1 (stop-IsWell b l StopTypes.pressure_low a1 w h1)) h

  pub stop_check-IsWell :
      (a : Acionna) (w : World)
      → IsWell b enters a w
      → let r = operation_pump_stop_check b a w in IsWell b enters r.0 r.1
  unfolding operation_pump_stop_check
  stop_check-IsWell a w h =
      let (a1, w1) = check_timer b a w in
      let (a2, w2) = check_pressure_high b a1 w1 in
      let (a3, w3) = check_air1 b a.flag_check_pressure_low_k1 StatesMotor.on_nominal_k1 a2 w2 in
      let (a4, w4) =
        check_air1 b a.flag_check_pressure_low_delta StatesMotor.on_nominal_delta a3 w3 in
      let (a5, w5) = check_air2 b a.flag_check_pressure_low_k2 StatesMotor.on_nominal_k2 a4 w4 in
      check_thermal-IsWell a5 w5 (
        check_air2-IsWell a.flag_check_pressure_low_k2 StatesMotor.on_nominal_k2 a4 w4 (
          check_air1-IsWell a.flag_check_pressure_low_delta StatesMotor.on_nominal_delta a3 w3 (
            check_air1-IsWell a.flag_check_pressure_low_k1 StatesMotor.on_nominal_k1 a2 w2
              (check_high-IsWell a1 w1 (check_timer-IsWell a w h)))))

  pub lock_down-IsWell :
      (a : Acionna) (w : World)
      → IsWell b enters a w
      → let r = operation_pump_lock_down b a w in IsWell b enters r.0 r.1
  unfolding operation_pump_lock_down
  lock_down-IsWell a w h =
      pick b (runs_main a.pump.state_motor) _ _ (stop-IsWell b l StopTypes.system_lock a w h) h
