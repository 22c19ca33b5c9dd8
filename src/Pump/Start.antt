-- ===== src/Pump/Start.antt =====
-- Pump::start (main/acionna/pump.hpp), one function for each case of its `switch`.
use acionna.Prelude.{ℕ, zero, suc, ◌+◌, Bool, true, false, ◌||◌, not, if◌then◌else◌, ltb}
use acionna.Types.{
  enable, StartTypes, direct_k1, direct_k2, direct_k3, to_delta, to_y, y_delta_req, unlisted,
  StopTypes, is_on, is_enable,
}
use acionna.Board.{Board}
use acionna.Pump.State.{Pump, wait_limit, drive_k, delay_ms, update_switches}
use acionna.Pump.Stop.{stop, all_off, update_state, make_log_start}

-- A wait loop's end: whether it gave up, the counter `i`, the pump and the world.
pub record Waited (W : Type 0) : Type 0 where
  pub late : Bool
  pub i : ℕ
  pub pump : Pump
  pub world : W

abbrev pub k1_seen : Pump → Bool
k1_seen p = is_on p.state_k1 || is_on p.state_k1_pin

abbrev pub k2_seen : Pump → Bool
k2_seen p = is_on p.state_k2 || is_on p.state_k2_pin

abbrev pub k3_seen : Pump → Bool
k3_seen p = is_on p.state_k3 || is_on p.state_k3_pin

module _ (b : Board) where
  open b use {World, delay_us}

  -- while (test) { i++; delay_us(1); update_switches_(); if (i > limit) give up; }
  -- It gives up in round `limit + 1` at the latest, which is the fuel of every call.
  unfoldable pub wait_while : (Pump → Bool) → ℕ → ℕ → ℕ → Pump → World → Waited World
  wait_while test limit zero i p w = record { late = true; i = i; pump = p; world = w }
  wait_while test limit (suc fuel) i p w =
      let w' = delay_us 1 w in
      let p' = update_switches b p w' in
      let rest = wait_while test limit fuel (i + 1) p' w' in
      if test p
      then if ltb limit (i + 1)
        then record { late = true; i = i + 1; pump = p'; world = w' }
        else rest
      else record { late = false; i = i; pump = p; world = w }

  abbrev pub wait_from_zero : (Pump → Bool) → Pump → World → Waited World
  wait_from_zero test p w = wait_while test (wait_limit p) (suc (wait_limit p)) 0 p w

  -- What follows the `switch`.
  unfoldable pub started : StartTypes → ℕ → Pump → World → ℕ × (Pump × World)
  started mode now p w =
      let (q, w') = update_state b now p w in
      let fresh = record q { time_on = 0; time_to_shutdown = q.time_to_shutdown_config } in
      (0, (make_log_start mode now fresh, w'))

  fail : Pump × World → ℕ × (Pump × World)
  fail r = (1, r)

  unfoldable pub start_direct_k1 : ℕ → Pump → World → ℕ × (Pump × World)
  unfolding fail
  start_direct_k1 now p w =
      let r = wait_from_zero (λ q. not (is_on q.state_k1)) p (drive_k b 1 true w) in
      let q = r.pump in
      let s = stop b StopTypes.contactor_not_on now q r.world in
      if r.late
      then fail (record (s.0) { time_k1_on = r.i }, s.1)
      else started direct_k1 now (record q { time_k1_on = r.i })
          (delay_ms b q.time_switch_k_change r.world)

  unfoldable pub start_direct_k2 : ℕ → Pump → World → ℕ × (Pump × World)
  unfolding fail
  start_direct_k2 now p w =
      let r = wait_from_zero (λ q. not (is_on q.state_k2)) p (drive_k b 2 true w) in
      let q = r.pump in
      if r.late
      then fail (stop b StopTypes.contactor_not_on now q r.world)
      else started direct_k2 now (record q { time_k2_on = r.i })
          (delay_ms b q.time_switch_k_change r.world)

  unfoldable pub start_direct_k3 : ℕ → Pump → World → ℕ × (Pump × World)
  unfolding fail
  start_direct_k3 now p w =
      let r = wait_from_zero (λ q. not (is_on q.state_k3)) p (drive_k b 3 true w) in
      let q = r.pump in
      if r.late
      then fail (stop b StopTypes.contactor_not_on now q r.world)
      else started direct_k3 now (record q { time_k3_on = r.i })
          (delay_ms b q.time_switch_k_change r.world)

  -- The release of the other contactor, before the delay; it is skipped where nothing is seen on.
  unfoldable pub let_go : (Pump → Bool) → ℕ → Pump → World → Waited World
  let_go seen k p w =
      let r = wait_from_zero seen p (drive_k b k false w) in
      if seen p
      then if r.late then r else record r { world = delay_ms b r.pump.time_switch_k_change r.world }
      else record { late = false; i = 0; pump = p; world = w }

  -- drive_k_(k, 1), then K1 where it is off, and the delay.
  unfoldable pub pull_in : ℕ → Pump → World → World
  pull_in k p w =
      let w1 = drive_k b k true w in
      delay_ms b p.time_switch_k_change (if k1_seen p then w1 else drive_k b 1 true w1)

  unfoldable pub start_to_delta : ℕ → Pump → World → ℕ × (Pump × World)
  unfolding fail
  start_to_delta now p w =
      let r = let_go k3_seen 3 p w in
      let q = r.pump in
      if r.late
      then fail (q, all_off b r.world)
      else if k3_seen q
      then fail (q, r.world)
      else let w' = pull_in 2 q r.world in
        if is_enable q.flag_start_y_delta then (0, (q, w')) else started to_delta now q w'

  unfoldable pub start_to_y : ℕ → Pump → World → ℕ × (Pump × World)
  unfolding fail
  start_to_y now p w =
      let r = let_go k2_seen 2 p w in
      let q = r.pump in
      if r.late
      then fail (q, all_off b r.world)
      else if k2_seen q
      then fail (q, r.world)
      else let w' = pull_in 3 q r.world in
        let armed = record q {
          start_y_delta_state = to_delta;
          time_delta_to_y_switch = q.time_delta_to_y_switch_config;
        } in
        started to_y now (if is_enable q.flag_start_y_delta then armed else q) w'

  -- start(start_types): 0 is success.
  unfoldable pub start : StartTypes → ℕ → Pump → World → ℕ × (Pump × World)
  unfolding start_direct_k1 start_direct_k2 start_direct_k3 start_to_delta start_to_y
  start direct_k1 now p w = start_direct_k1 now p w
  start direct_k2 now p w = start_direct_k2 now p w
  start direct_k3 now p w = start_direct_k3 now p w
  start to_delta now p w = start_to_delta now p w
  start to_y now p w = start_to_y now p w
  start y_delta_req now p w =
      (0, (record p { flag_start_y_delta = enable; start_y_delta_state = to_y }, w))
  start (unlisted n) now p w = started (unlisted n) now p w
