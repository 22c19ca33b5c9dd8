-- ===== src/Controller/Shutdown.antt =====
-- What the stop conditions and the lock do to the outputs.
use acionna.Prelude.{
  ◌≡◌, refl, ap, ◌∙◌, Bool, true, false, Bool-cases, inl, inr, not, ◌&&◌, ◌==◌, ltb_ℤ,
  if◌then◌else◌, pos,
}
use acionna.Types.{
  StatesFlag, enable, StatesMode, StatesMotor, StopTypes, is_enable, is_on, same_motor,
}
use acionna.Board.{Board, IsLatched}
use acionna.Pump.Levels.{AllLow, stop-AllLow}
use acionna.Pump.Frame.{stop_keeps}
use acionna.Pipe.{air_intake_detect}
use acionna.Controller.State.{Acionna, runs_main, runs_any, stop_pump}
use acionna.Controller.StopCheck.{
  check_timer, check_pressure_high, check_air1, check_air2, check_thermal,
  operation_pump_stop_check, operation_pump_lock_down,
}
use acionna.Controller.Mode.{in_mode, operation_mode}

module _ (b : Board) (l : IsLatched b) where
  open b use {World}

  -- A condition keeps the motor's state and the mode, and never raises an output.
  record Held (a : Acionna) (w : World) (r : Acionna × World) : Type 0 where
    motor : r.0.pump.state_motor ≡ a.pump.state_motor
    mode : r.0.state_mode ≡ a.state_mode
    low : AllLow b w → AllLow b r.1

  unchanged : (a : Acionna) (w : World) → Held a w (a, w)
  unchanged a w = record { motor = refl; mode = refl; low = λ h. h }

  stopped : (reason : StopTypes) (a : Acionna) (w : World) → Held a w (stop_pump b reason a w)
  stopped reason a w = record {
    motor = (stop_keeps b reason a.epoch_time a.pump w).0;
    mode = refl;
    low = λ h. stop-AllLow b l reason a.epoch_time a.pump w;
  }

  -- Both branches of a condition.
  either :
      (t : Bool) (reason : StopTypes) (a : Acionna) (w : World)
      → Held a w (if t then stop_pump b reason a w else (a, w))
  either true reason a w = stopped reason a w
  either false reason a w = unchanged a w

  chain :
      (a : Acionna) (w : World) (r s : Acionna × World)
      → Held a w r
      → Held (r.0) (r.1) s
      → Held a w s
  chain a w r s h k = record {
    motor = k.motor ∙ h.motor;
    mode = k.mode ∙ h.mode;
    low = λ x. k.low (h.low x);
  }

  timer-Held : (a : Acionna) (w : World) → Held a w (check_timer b a w)
  unfolding check_timer
  timer-Held a w =
      either
        (is_enable a.flag_check_timer
          && runs_any a.pump.state_motor
          && (a.pump.time_to_shutdown == 0))
        StopTypes.timeout a w

  high-Held : (a : Acionna) (w : World) → Held a w (check_pressure_high b a w)
  unfolding check_pressure_high
  high-Held a w =
      either
        (is_enable a.flag_check_pressure_high
          && ltb_ℤ a.pipe1.pressure_max a.pipe1.pressure_mca
          && runs_main a.pump.state_motor)
        StopTypes.pressure_high a w

  thermal-Held : (a : Acionna) (w : World) → Held a w (check_thermal b a w)
  unfolding check_thermal
  thermal-Held a w =
      either
        (is_enable a.flag_check_thermal_relay
          && is_on a.pump.state_rth
          && not (same_motor a.pump.state_motor StatesMotor.off_thermal_activated))
        StopTypes.thermal_relay a w

  air1-Held :
      (f : StatesFlag) (ref : StatesMotor) (a : Acionna) (w : World)
      → Held a w (check_air1 b f ref a w)
  unfolding check_air1
  air1-Held f ref a w =
      let r = air_intake_detect a.pump.state_motor ref (pos 60) a.pipe1 in
      let a1 = record a { pipe1 = r.1 } in
      elim (Bool-cases (is_enable a.flag_check_pressure_low && is_enable f)) [
        | inr e ↦ rw e (unchanged a w)
        | inl e ↦ rw e (elim (Bool-cases (r.0 == 0)) [
          | inl z ↦ rw z (record { motor = refl; mode = refl; low = λ h. h })
          | inr z ↦ rw z (
              let s = stopped StopTypes.pressure_low a1 w in
              record { motor = s.motor; mode = s.mode; low = s.low })
        ])
      ]

  air2-Held :
      (f : StatesFlag) (ref : StatesMotor) (a : Acionna) (w : World)
      → Held a w (check_air2 b f ref a w)
  unfolding check_air2
  air2-Held f ref a w =
      let r = air_intake_detect a.pump.state_motor ref (pos 60) a.pipe2 in
      let a1 = record a { pipe2 = r.1 } in
      elim (Bool-cases (is_enable a.flag_check_pressure_low && is_enable f)) [
        | inr e ↦ rw e (unchanged a w)
        | inl e ↦ rw e (elim (Bool-cases (r.0 == 0)) [
          | inl z ↦ rw z (record { motor = refl; mode = refl; low = λ h. h })
          | inr z ↦ rw z (
              let s = stopped StopTypes.pressure_low a1 w in
              record { motor = s.motor; mode = s.mode; low = s.low })
        ])
      ]

  -- The five conditions after the first.
  rest-Held :
      (a : Acionna) (w : World)
      → Held (check_timer b a w).0 (check_timer b a w).1 (operation_pump_stop_check b a w)
  unfolding operation_pump_stop_check
  rest-Held a w =
      let r1 = check_timer b a w in
      let r2 = check_pressure_high b (r1.0) (r1.1) in
      let r3 = check_air1 b a.flag_check_pressure_low_k1 StatesMotor.on_nominal_k1 (r2.0) (r2.1) in
      let r4 =
        check_air1 b a.flag_check_pressure_low_delta StatesMotor.on_nominal_delta (r3.0) (r3.1) in
      let r5 = check_air2 b a.flag_check_pressure_low_k2 StatesMotor.on_nominal_k2 (r4.0) (r4.1) in
      let r6 = check_thermal b (r5.0) (r5.1) in
      chain (r1.0) (r1.1) r2 r6 (high-Held (r1.0) (r1.1)) (
        chain (r2.0) (r2.1) r3 r6
          (air1-Held a.flag_check_pressure_low_k1 StatesMotor.on_nominal_k1 (r2.0) (r2.1))
          (chain (r3.0) (r3.1) r4 r6
            (air1-Held a.flag_check_pressure_low_delta StatesMotor.on_nominal_delta (r3.0) (r3.1))
            (chain (r4.0) (r4.1) r5 r6
              (air2-Held a.flag_check_pressure_low_k2 StatesMotor.on_nominal_k2 (r4.0) (r4.1))
              (thermal-Held (r5.0) (r5.1)))))

  stop_check-Held : (a : Acionna) (w : World) → Held a w (operation_pump_stop_check b a w)
  stop_check-Held a w =
      chain a w (check_timer b a w) (operation_pump_stop_check b a w) (timer-Held a w)
        (rest-Held a w)

  -- On a board whose outputs keep their level, with the timer's check enabled, a running motor and no time left, the stop conditions leave all
  -- three outputs low, whatever the other conditions find.
  pub stop_check-timeout :
      (a : Acionna) (w : World)
      → a.flag_check_timer ≡ enable
      → runs_any a.pump.state_motor ≡ true
      → a.pump.time_to_shutdown ≡ 0
      → AllLow b (operation_pump_stop_check b a w).1
  unfolding check_timer
  stop_check-timeout a w f m t =
      let c : (is_enable a.flag_check_timer
            && runs_any a.pump.state_motor
            && (a.pump.time_to_shutdown == 0))
          ≡ true =
        rw (f, m, t) refl in
      (rest-Held a w).low (rw c (stop-AllLow b l StopTypes.timeout a.epoch_time a.pump w))

  -- On a board whose outputs keep their level, in the mode `system_off`, a call of `operation_mode` that finds the motor in `on_nominal_k1`, `on_nominal_delta` or
  -- `on_speeding_up` ends with all three outputs low.
  pub operation_mode-off :
      (a : Acionna) (w : World)
      → a.state_mode ≡ StatesMode.system_off
      → runs_main a.pump.state_motor ≡ true
      → AllLow b (operation_mode b a w).1
  unfolding operation_mode in_mode operation_pump_lock_down
  operation_mode-off a w e m =
      let r = operation_pump_stop_check b a w in
      let h = stop_check-Held a w in
      let m' : runs_main r.0.pump.state_motor ≡ true = ap (λ s. runs_main s) h.motor ∙ m in
      rw (h.mode ∙ e, m') (stop-AllLow b l StopTypes.system_lock r.0.epoch_time r.0.pump (r.1))
