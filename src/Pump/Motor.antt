-- ===== src/Pump/Motor.antt =====
-- The state that Pump::update_state_ reports, against the table of the contactors.
use acionna.Prelude.{ℕ, ◌≡◌, ◌⊎◌, true, false, arith, ◌≢◌}
use acionna.Types.{StatesSwitch, off, on, StatesMotor, StopTypes}
use acionna.Board.{Board, IsLatched}
use acionna.Pump.State.{Pump, update_switches}
use acionna.Pump.Frame.{stop_keeps}
use acionna.Pump.Stop.{make_log_stop, update_state, not_pulled}
use acionna.Pump.Levels.{AllLow, stop-AllLow}

-- The motor's state for each reading of K1, K2 and K3.
abbrev pub motor_table : StatesSwitch → StatesSwitch → StatesSwitch → StatesMotor
motor_table off off off = StatesMotor.off_idle
motor_table on off off = StatesMotor.on_nominal_k1
motor_table off on off = StatesMotor.on_nominal_k2
motor_table on off on = StatesMotor.on_speeding_up
motor_table on on off = StatesMotor.on_nominal_delta
motor_table off off on = StatesMotor.off_k3_short_circuit
motor_table off on on = StatesMotor.off_k3_short_circuit
motor_table on on on = StatesMotor.undefined

module _ (b : Board) where
  -- The state reported is `off_thermal_activated` exactly when the thermal relay reads on and the
  -- last state reported was another; else it is the table's entry for the fresh readings.
  pub update_state_reports :
      (now : ℕ) (p : Pump) (w : b.World)
      → let p0 = update_switches b p w in
        let m = (update_state b now p w).0.state_motor in
        ((p0.state_rth ≡ on)
          × (p.state_motor ≢ StatesMotor.off_thermal_activated)
          × (m ≡ StatesMotor.off_thermal_activated))
        ⊎ (((p0.state_rth ≡ off) ⊎ (p.state_motor ≡ StatesMotor.off_thermal_activated))
            × (m ≡ motor_table p0.state_k1 p0.state_k2 p0.state_k3))
  unfolding update_state update_switches
  update_state_reports now p w = ground arith

  -- While the thermal relay stays on, every second report of `update_state_` is not
  -- `off_thermal_activated` but what the contactors read, even that the motor runs.
  pub thermal_alternates :
      (now later : ℕ) (p : Pump) (w : b.World)
      → b.input_level 3 w ≡ false
      → p.state_motor ≢ StatesMotor.off_thermal_activated
      → let q = (update_state b now p w).0 in
        let r = update_switches b q w in
        (q.state_motor ≡ StatesMotor.off_thermal_activated)
        × ((update_state b later q w).0.state_motor ≡ motor_table r.state_k1 r.state_k2 r.state_k3)
  unfolding update_switches
  thermal_alternates now later p w relay fresh =
      let q = (update_state b now p w).0 in
      let first : q.state_motor ≡ StatesMotor.off_thermal_activated =
        ground (arith, update_state_reports now p w) in
      (first, ground (arith, update_state_reports later q w))

  -- On a board whose outputs keep their level, where no contactor reads on although the output of K1
  -- or K2 is high, and the thermal relay is off, `update_state_` takes every output down, reports
  -- `off_idle`, starts the wait and records `contactor_not_on`.
  pub update_state_pulls_down :
      (l : IsLatched b) (now : ℕ) (p : Pump) (w : b.World)
      → (update_switches b p w).state_rth ≡ off
      → not_pulled (update_switches b p w) ≡ true
      → let r = update_state b now p w in
        AllLow b r.1
        × (r.0.state_motor ≡ StatesMotor.off_idle)
        × (r.0.time_wait_power_on ≡ p.time_wait_power_on_config)
        × (r.0.log_motors ≡ (make_log_stop StopTypes.contactor_not_on p.time_on p).log_motors)
  unfolding update_state update_switches make_log_stop
  update_state_pulls_down l now p w cold open_contacts =
      let p0 = update_switches b p w in
      ground (
        arith,
        stop-AllLow b l StopTypes.contactor_not_on now p0 w,
        stop_keeps b StopTypes.contactor_not_on now p0 w,
      )
