-- ===== src/Pump/Interlock/Run.antt =====
-- `start_y_delta_state_` only ever holds a mode of the star-delta sequence.
use acionna.Prelude.{ℕ, suc, ◌≡◌, refl, ap, Bool, true, false, arith}
use acionna.Types.{StartTypes, to_delta, to_y, y_delta_req}
use acionna.Board.{Board}
use acionna.Pump.State.{Pump, wait_limit, drive_k}
use acionna.Pump.Stop.{make_log_start, make_log_update}
use acionna.Pump.Start.{
  let_go, pull_in, k2_seen, k3_seen, started, start_to_delta, start_to_y, start,
}
use acionna.Pump.Update.{update_time, update_run_time, update_wait_time}
use acionna.Pump.Frame.{erase-wait_while, update_state_keeps}
use acionna.Pump.Interlock.Start.{is_guarded}

-- The values that `start_y_delta_state_` takes.
abbrev pub is_y_delta : StartTypes → Bool
is_y_delta to_delta = true
is_y_delta to_y = true
is_y_delta y_delta_req = true
is_y_delta _ = false

pub guarded_of_y_delta : (m : StartTypes) → is_y_delta m ≡ true → is_guarded m ≡ true
guarded_of_y_delta m h = ground arith

pub update_time_keeps :
    (p : Pump)
    → let q = update_time p in
      (q.start_y_delta_state ≡ p.start_y_delta_state)
      × (q.state_k2_pin ≡ p.state_k2_pin)
      × (q.state_k3_pin ≡ p.state_k3_pin)
unfolding update_time update_run_time update_wait_time make_log_update
update_time_keeps p = ground arith

module _ (b : Board) where
  let_go_keeps :
      (seen : Pump → Bool) (k : ℕ) (p : Pump) (w : b.World)
      → (let_go b seen k p w).pump.start_y_delta_state ≡ p.start_y_delta_state
  unfolding let_go
  let_go_keeps seen k p w = ground (
    arith,
    ap (λ (x : Pump). x.start_y_delta_state)
        (erase-wait_while b seen (wait_limit p) (suc (wait_limit p)) 0 p (drive_k b k false w)),
  )

  pub started_keeps :
      (mode : StartTypes) (now : ℕ) (p : Pump) (w : b.World)
      → (started b mode now p w).1.0.start_y_delta_state ≡ p.start_y_delta_state
  unfolding started make_log_start
  started_keeps mode now p w = (update_state_keeps b now p w).0

  delta_keeps :
      (now : ℕ) (p : Pump) (w : b.World)
      → (start_to_delta b now p w).1.0.start_y_delta_state ≡ p.start_y_delta_state
  unfolding start_to_delta
  delta_keeps now p w =
      let r = let_go b k3_seen 3 p w in
      ground (
        arith,
        let_go_keeps k3_seen 3 p w,
        started_keeps to_delta now r.pump (pull_in b 2 r.pump r.world),
      )

  y_keeps :
      (now : ℕ) (p : Pump) (w : b.World)
      → is_y_delta p.start_y_delta_state ≡ true
      → is_y_delta (start_to_y b now p w).1.0.start_y_delta_state ≡ true
  unfolding start_to_y
  y_keeps now p w h =
      let r = let_go b k2_seen 2 p w in
      let w' = pull_in b 3 r.pump r.world in
      let armed = record (r.pump) {
        start_y_delta_state = to_delta;
        time_delta_to_y_switch = r.pump.time_delta_to_y_switch_config;
      } in
      ground (
        arith,
        let_go_keeps k2_seen 2 p w,
        started_keeps to_y now r.pump w',
        started_keeps to_y now armed w',
      )

  pub start_y_delta_keeps :
      (mode : StartTypes) (now : ℕ) (p : Pump) (w : b.World)
      → is_y_delta mode ≡ true
      → is_y_delta p.start_y_delta_state ≡ true
      → is_y_delta (start b mode now p w).1.0.start_y_delta_state ≡ true
  unfolding start
  start_y_delta_keeps to_delta now p w m h = rw (delta_keeps now p w) h
  start_y_delta_keeps to_y now p w m h = y_keeps now p w h
  start_y_delta_keeps y_delta_req now p w m h = refl
  start_y_delta_keeps _ now p w m h = cc
