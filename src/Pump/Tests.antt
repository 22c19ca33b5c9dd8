-- ===== src/Pump/Tests.antt =====
-- Runs of the pump on a concrete board, and its theorems at concrete inputs.
use acionna.Prelude.{
  ◌≡◌, ◌≢◌, ◌⊎◌, refl, inl, Bool, true, false, arith, List, [], ◌∷◌, if◌then◌else◌, ◌==◌, take,
}
use acionna.Types.{to_delta, to_y, StopTypes, StatesMotor, on, off, enable, disable, is_on}
use acionna.Panel.{panel, panel-IsLatched, idle, Levels}
use acionna.Pump.State.{Pump, new, update_switches}
use acionna.Pump.Stop.{
  stop, release, update_state, Release, make_log_stop, make_log_start, make_log_update, all_off,
}
use acionna.Pump.Start.{start, wait_while, k3_seen, let_go, pull_in, started, start_to_y}
use acionna.Pump.Start.{start_to_delta}
use acionna.History.{shift_down}
use acionna.Pump.Update.{
  update, update_time, update_run_time, update_wait_time, check_start_req, start_y_pending,
  switch_to_delta,
}
use acionna.Pump.Wait.{wait_while_ends, Ended}
use acionna.Pump.Levels.{AllLow, stop-AllLow}
use acionna.Pump.Motor.{motor_table, update_state_reports, update_state_pulls_down}
use acionna.Pump.Interlock.{Interlocked}
use acionna.Pump.Interlock.Start.{start-Interlocked}
use acionna.Pump.Interlock.Events.{IsSafe, run, run-IsSafe, Event, tick, request}
use acionna.Pump.Interlock.Stale.{start_to_y_shorts}

-- A star-delta start: seven seconds in star, then delta.
abbrev sequence : List Event
sequence =
    request 10
    ∷ tick 11
    ∷ tick 12
    ∷ tick 13
    ∷ tick 14
    ∷ tick 15
    ∷ tick 16
    ∷ tick 17
    ∷ tick 18
    ∷ tick 19
    ∷ []

abbrev outputs : Pump × Levels → Bool × Bool × Bool
outputs r = (r.1.outputs 0, r.1.outputs 1, r.1.outputs 2)

sequence_in_star : outputs (run panel (take 4 sequence) new idle) ≡ (true, false, true)
unfolding run update update_state update_switches check_start_req start_y_pending switch_to_delta
    update_time update_run_time update_wait_time start start_to_y start_to_delta let_go wait_while
    pull_in started make_log_start make_log_update shift_down stop make_log_stop release all_off
sequence_in_star = refl

sequence_in_delta : outputs (run panel sequence new idle) ≡ (true, true, false)
unfolding run update update_state update_switches check_start_req start_y_pending switch_to_delta
    update_time update_run_time update_wait_time start start_to_y start_to_delta let_go wait_while
    pull_in started make_log_start make_log_update shift_down stop make_log_stop release all_off
sequence_in_delta = refl

run-IsSafe_example : IsSafe panel (run panel sequence new idle).0 (run panel sequence new idle).1
run-IsSafe_example =
    run-IsSafe panel panel-IsLatched sequence new idle
      (record { interlocked = inl refl; sequence = refl })

start-Interlocked_example : Interlocked panel (start panel to_delta 5 new idle).1.1
start-Interlocked_example =
    start-Interlocked panel panel-IsLatched to_delta 5 new idle refl (inl refl, inl refl) (inl refl)

-- All three outputs high.
abbrev all_high : Levels
all_high = record idle { outputs = λ i. true; contacts = λ i. true }

stop-AllLow_example : AllLow panel (stop panel StopTypes.timeout 9 new all_high).1
stop-AllLow_example = stop-AllLow panel panel-IsLatched StopTypes.timeout 9 new all_high

-- K1 and K3 closed, the relay tripped.
abbrev hot_star : Levels
hot_star = record idle {
  outputs = λ i. if i == 1 then false else true;
  contacts = λ i. if i == 1 then false else true;
  relay = true;
}

update_state_reports_example :
    let p0 = update_switches panel new hot_star in
    let m = (update_state panel 7 new hot_star).0.state_motor in
    ((p0.state_rth ≡ on)
      × (new.state_motor ≢ StatesMotor.off_thermal_activated)
      × (m ≡ StatesMotor.off_thermal_activated))
    ⊎ (((p0.state_rth ≡ off) ⊎ (new.state_motor ≡ StatesMotor.off_thermal_activated))
        × (m ≡ motor_table p0.state_k1 p0.state_k2 p0.state_k3))
update_state_reports_example = update_state_reports panel 7 new hot_star

-- The output of K1 is high and its contactor open and stuck.
abbrev open_k1 : Levels
open_k1 = record idle { outputs = λ i. i == 0; stuck = true }

update_state_pulls_down_example :
    let r = update_state panel 7 new open_k1 in
    AllLow panel r.1
    × (r.0.state_motor ≡ StatesMotor.off_idle)
    × (r.0.time_wait_power_on ≡ 600)
    × (r.0.log_motors ≡ (make_log_stop StopTypes.contactor_not_on 0 new).log_motors)
unfolding update_switches
update_state_pulls_down_example =
    update_state_pulls_down panel panel-IsLatched 7 new open_k1 refl refl

abbrev k1_off : Pump → Bool
k1_off p = if is_on p.state_k1 then false else true

wait_while_ends_example : Ended panel k1_off 20 (wait_while panel k1_off 20 21 0 new open_k1)
wait_while_ends_example =
    wait_while_ends panel k1_off 20 21 0 new open_k1 (omega arith) (omega arith)

abbrev first_round : Release Levels
first_round = record { k = 0; k1 = 0; k2 = 0; k3 = 0; pump = new; world = open_k1 }

abbrev running : Pump
running = record new { state_motor = StatesMotor.on_nominal_k1; time_to_shutdown = 9 }

-- A pump in the delta step of the sequence, with nothing seen on.
abbrev in_sequence : Pump
in_sequence = record new { flag_start_y_delta = enable; start_y_delta_state = to_delta }

start_to_y_shorts_example :
    let r = let_go panel k3_seen 3 in_sequence idle in
    let v = pull_in panel 2 r.pump r.world in
    let rest = record (r.pump) { flag_start_y_delta = disable } in
    let v' = pull_in panel 3 rest v in
    (start_to_delta panel 5 in_sequence idle ≡ (0, (r.pump, v)))
    × (start_to_y panel 5 rest v ≡ started panel to_y 5 rest v')
    × (v'.outputs 1 ≡ true)
    × (v'.outputs 2 ≡ true)
start_to_y_shorts_example =
    start_to_y_shorts panel panel-IsLatched 5 in_sequence idle (unfold let_go in refl)
      (unfold let_go in refl) (unfold let_go in refl) (unfold let_go in refl)
