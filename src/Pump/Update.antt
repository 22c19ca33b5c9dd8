-- ===== src/Pump/Update.antt =====
-- Pump::update and what it calls besides update_state_ (main/acionna/pump.hpp).
use acionna.Prelude.{ℕ, ◌+◌, ◌-◌, Bool, ◌||◌, ◌==◌, if◌then◌else◌, u32}
use acionna.Types.{disable, is_enable, is_to_y, StatesMotor, same_motor}
use acionna.Board.{Board}
use acionna.Pump.State.{Pump}
use acionna.Pump.Stop.{update_state, make_log_update}
use acionna.Pump.Start.{start}

-- The four states in which the motor runs.
abbrev pub is_running : StatesMotor → Bool
is_running m =
    same_motor m StatesMotor.on_nominal_k1
    || same_motor m StatesMotor.on_nominal_k2
    || same_motor m StatesMotor.on_nominal_delta
    || same_motor m StatesMotor.on_speeding_up

-- if(time_to_shutdown) time_to_shutdown--;
abbrev count_down : Pump → Pump
count_down p =
    if p.time_to_shutdown == 0 then p else record p { time_to_shutdown = p.time_to_shutdown - 1 }

-- The first half of `update_time_`.
unfoldable pub update_run_time : Pump → Pump
update_run_time p =
    if is_running p.state_motor
    then count_down (make_log_update (record p { time_on = u32 (p.time_on + 1) }))
    else record p { time_off = u32 (p.time_off + 1) }

unfoldable pub update_wait_time : Pump → Pump
update_wait_time p =
    if is_enable p.flag_check_wait_power_on
    then if p.time_wait_power_on == 0
      then record p { flag_check_wait_power_on = disable }
      else record p { time_wait_power_on = p.time_wait_power_on - 1 }
    else p

unfoldable pub update_time : Pump → Pump
update_time p = update_wait_time (update_run_time p)

module _ (b : Board) where
  open b use {World}

  -- start(start_y_delta_state_), its result logged and dropped.
  abbrev pub start_pending : ℕ → Pump → World → Pump × World
  start_pending now p w = (start b p.start_y_delta_state now p w).1

  -- The first `if` of `check_start_req_`.
  unfoldable pub start_y_pending : ℕ → Pump → World → Pump × World
  start_y_pending now p w = if is_to_y p.start_y_delta_state then start_pending now p w else (p, w)

  unfoldable pub switch_to_delta : ℕ → Pump → World → Pump × World
  switch_to_delta now p w =
      let r = start_pending now p w in
      if p.time_delta_to_y_switch == 0
      then (record (r.0) { flag_start_y_delta = disable }, r.1)
      else (record p { time_delta_to_y_switch = p.time_delta_to_y_switch - 1 }, w)

  unfoldable pub check_start_req : ℕ → Pump → World → Pump × World
  check_start_req now p w =
      let r = start_y_pending now p w in
      if is_enable p.flag_start_y_delta then switch_to_delta now (r.0) (r.1) else (p, w)

  unfoldable pub update : ℕ → Pump → World → Pump × World
  update now p w = let (q, v) = update_state b now p w in check_start_req now (update_time q) v
