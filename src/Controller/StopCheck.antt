-- ===== src/Controller/StopCheck.antt =====
-- Acionna::operation_pump_stop_check and operation_pump_lock_down (main/acionna/acionna.cpp). The
-- well's level check is compiled out (CONFIG_WELL_SUPPORT).
use acionna.Prelude.{not, ◌&&◌, pos, ltb_ℤ, ◌==◌, if◌then◌else◌}
use acionna.Types.{StatesFlag, StatesMotor, StopTypes, is_enable, is_on, same_motor}
use acionna.Board.{Board}
use acionna.Pipe.{air_intake_detect}
use acionna.Controller.State.{Acionna, runs_main, runs_any, stop_pump}

module _ (b : Board) where
  open b use {World}

  -- check time to shutdown
  unfoldable pub check_timer : Acionna → World → Acionna × World
  check_timer a w =
      if is_enable a.flag_check_timer
        && runs_any a.pump.state_motor
        && (a.pump.time_to_shutdown == 0)
      then stop_pump b StopTypes.timeout a w
      else (a, w)

  -- check high pressure
  unfoldable pub check_pressure_high : Acionna → World → Acionna × World
  check_pressure_high a w =
      if is_enable a.flag_check_pressure_high
        && ltb_ℤ a.pipe1.pressure_max a.pipe1.pressure_mca
        && runs_main a.pump.state_motor
      then stop_pump b StopTypes.pressure_high a w
      else (a, w)

  -- check low pressure: one `if` of the three.
  unfoldable pub check_air1 : StatesFlag → StatesMotor → Acionna → World → Acionna × World
  check_air1 flag ref a w =
      if is_enable a.flag_check_pressure_low && is_enable flag
      then (let r = air_intake_detect a.pump.state_motor ref (pos 60) a.pipe1 in
          let a1 = record a { pipe1 = r.1 } in
          if r.0 == 0 then (a1, w) else stop_pump b StopTypes.pressure_low a1 w)
      else (a, w)

  unfoldable pub check_air2 : StatesFlag → StatesMotor → Acionna → World → Acionna × World
  check_air2 flag ref a w =
      if is_enable a.flag_check_pressure_low && is_enable flag
      then (let r = air_intake_detect a.pump.state_motor ref (pos 60) a.pipe2 in
          let a1 = record a { pipe2 = r.1 } in
          if r.0 == 0 then (a1, w) else stop_pump b StopTypes.pressure_low a1 w)
      else (a, w)

  -- check thermal relay
  unfoldable pub check_thermal : Acionna → World → Acionna × World
  check_thermal a w =
      if is_enable a.flag_check_thermal_relay
        && is_on a.pump.state_rth
        && not (same_motor a.pump.state_motor StatesMotor.off_thermal_activated)
      then stop_pump b StopTypes.thermal_relay a w
      else (a, w)

  unfoldable pub operation_pump_stop_check : Acionna → World → Acionna × World
  operation_pump_stop_check a w =
      let (a1, w1) = check_timer a w in
      let (a2, w2) = check_pressure_high a1 w1 in
      let (a3, w3) = check_air1 a.flag_check_pressure_low_k1 StatesMotor.on_nominal_k1 a2 w2 in
      let (a4, w4) =
        check_air1 a.flag_check_pressure_low_delta StatesMotor.on_nominal_delta a3 w3 in
      let (a5, w5) = check_air2 a.flag_check_pressure_low_k2 StatesMotor.on_nominal_k2 a4 w4 in
      check_thermal a5 w5

  unfoldable pub operation_pump_lock_down : Acionna → World → Acionna × World
  operation_pump_lock_down a w =
      if runs_main a.pump.state_motor then stop_pump b StopTypes.system_lock a w else (a, w)
