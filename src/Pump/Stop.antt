-- ===== src/Pump/Stop.antt =====
-- Pump::stop, the two Pump::make_log and Pump::update_state_ (main/acionna/pump.hpp).
use acionna.Prelude.{
  ℕ, zero, suc, ◌+◌, Bool, false, ◌&&◌, ◌||◌, not, if◌then◌else◌, ltb, set, get_or,
}
use acionna.History.{shift_down, slot}
use acionna.Types.{
  disable, enable, StatesSwitch, StatesMotor, StartTypes, StopTypes, is_on, same_motor,
}
use acionna.Board.{Board}
use acionna.Pump.State.{Pump, empty_log, wait_limit, drive_k, update_switches}

-- make_log(stop_types, uint32_t)
unfoldable pub make_log_stop : StopTypes → ℕ → Pump → Pump
make_log_stop stop_type elapsed p = record p {
  log_motors = set p.log_motors 0 (record (get_or p.log_motors 0 empty_log) {
    stop_reason = stop_type;
    time_elapsed_on = elapsed;
  });
}

-- make_log_update()
unfoldable pub make_log_update : Pump → Pump
make_log_update p = record p {
  log_motors =
      set p.log_motors 0 (record (get_or p.log_motors 0 empty_log) { time_elapsed_on = p.time_on });
}

-- make_log(start_types, uint32_t)
unfoldable pub make_log_start : StartTypes → ℕ → Pump → Pump
make_log_start start_type time_now p = record p {
  log_motors = set (shift_down slot empty_log 14 p.log_motors) 0 (record {
    start_mode = start_type;
    time_start = time_now;
    time_elapsed_on = 0;
    stop_reason = StopTypes.other;
  });
}

-- What the release loop of `stop` leaves: its four counters, the pump and the world.
pub record Release (W : Type 0) : Type 0 where
  pub k : ℕ
  pub k1 : ℕ
  pub k2 : ℕ
  pub k3 : ℕ
  pub pump : Pump
  pub world : W

abbrev pub any_on : Pump → Bool
any_on p = is_on p.state_k1 || is_on p.state_k2 || is_on p.state_k3

abbrev count_on : StatesSwitch → ℕ → ℕ
count_on s n = if is_on s then n + 1 else n

-- The ladder of `update_state_` after its thermal test.
abbrev pub next_state : Pump → StatesMotor
next_state p =
    let k1 = is_on p.state_k1 in
    let k2 = is_on p.state_k2 in
    let k3 = is_on p.state_k3 in
    if not k1 && not k2 && not k3
    then StatesMotor.off_idle
    else if k1 && not k2 && not k3
    then StatesMotor.on_nominal_k1
    else if not k1 && k2 && not k3
    then StatesMotor.on_nominal_k2
    else if k1 && not k2 && k3
    then StatesMotor.on_speeding_up
    else if k1 && k2 && not k3
    then StatesMotor.on_nominal_delta
    else if not k1 && (not k2 || k3)
    then StatesMotor.off_k3_short_circuit
    else StatesMotor.undefined

-- All contactors read off while the pin of k1 or k2 is high.
abbrev pub not_pulled : Pump → Bool
not_pulled p = not (any_on p) && (is_on p.state_k1_pin || is_on p.state_k2_pin)

module _ (b : Board) where
  open b use {World, delay_us}

  abbrev pub release_round : Release World → Release World
  release_round r =
      let w = r.world in
      let p = r.pump in
      record {
        k = r.k + 1;
        k1 = count_on p.state_k1 r.k1;
        k2 = count_on p.state_k2 r.k2;
        k3 = count_on p.state_k3 r.k3;
        pump = update_switches b p w;
        world = delay_us 1 w;
      }

  -- The `while` loop of `stop`. Its `break` comes in round `limit + 1` at the latest.
  unfoldable pub release : ℕ → ℕ → Release World → Release World
  release limit zero r = r
  release limit (suc fuel) r =
      let next = release_round r in
      let rest = release limit fuel next in
      if any_on r.pump then if ltb limit next.k then next else rest else r

  -- drive_k_(1, 0); drive_k_(2, 0); drive_k_(3, 0);
  unfoldable pub all_off : World → World
  all_off w = drive_k b 3 false (drive_k b 2 false (drive_k b 1 false w))

  unfoldable pub stop : StopTypes → ℕ → Pump → World → Pump × World
  stop reason now p w =
      let p0 = make_log_stop reason p.time_on p in
      let r =
        release (wait_limit p0) (suc (wait_limit p0))
          (record { k = 0; k1 = 0; k2 = 0; k3 = 0; pump = p0; world = all_off w }) in
      let q = r.pump in
      (
        record q {
          time_k1_off = if is_on p0.state_k1 then r.k1 else q.time_k1_off;
          time_k2_off = if is_on p0.state_k2 then r.k2 else q.time_k2_off;
          time_k3_off = if is_on p0.state_k3 then r.k3 else q.time_k3_off;
          time_wait_power_on = q.time_wait_power_on_config;
          flag_check_wait_power_on = enable;
          flag_start_y_delta = disable;
          time_off = 0;
          time_last_stopped = now;
        },
        r.world,
      )

  unfoldable pub update_state : ℕ → Pump → World → Pump × World
  update_state now p w =
      let p0 = update_switches b p w in
      if is_on p0.state_rth && not (same_motor p0.state_motor StatesMotor.off_thermal_activated)
      then (record p0 { state_motor = StatesMotor.off_thermal_activated }, w)
      else let state = next_state p0 in
        let (q, w') = if not_pulled p0 then stop StopTypes.contactor_not_on now p0 w else (p0, w) in
        (record q { state_motor = state }, w')
