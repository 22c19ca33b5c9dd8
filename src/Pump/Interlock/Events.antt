-- ===== src/Pump/Interlock/Events.antt =====
-- The one-second updates, stops and star-delta requests of the main loop, in any order, and the
-- interlock of K2 and K3.
use acionna.Prelude.{ℕ, ◌≡◌, refl, inl, inr, true, arith, List, [], ◌∷◌, Bool-cases}
use acionna.Types.{StopTypes, StartTypes, to_delta, to_y, y_delta_req, is_enable, is_to_y}
use acionna.Board.{Board, IsLatched}
use acionna.Pump.State.{Pump, update_switches}
use acionna.Pump.Stop.{stop, update_state, make_log_start}
use acionna.Pump.Start.{let_go, pull_in, k2_seen, started, start_to_y, start}
use acionna.Pump.Update.{update_time, check_start_req, start_y_pending, switch_to_delta, update}
use acionna.Pump.Levels.{AllLow, all_off-AllLow, stop-AllLow}
use acionna.Pump.Frame.{stop_keeps, update_state_keeps}
use acionna.Pump.Interlock.{
  Interlocked, PinsSeen, update_switches-PinsSeen, let_go-PinsSeen, update_state-Interlocked,
}
use acionna.Pump.Interlock.Start.{start-Interlocked}
use acionna.Pump.Interlock.Run.{
  is_y_delta, guarded_of_y_delta, update_time_keeps, start_y_delta_keeps,
}

-- What holds of the pump and the outputs between two events.
pub record IsSafe (b : Board) (p : Pump) (w : b.World) : Type 0 where
  pub interlocked : Interlocked b w
  pub sequence : is_y_delta p.start_y_delta_state ≡ true

module _ (b : Board) (l : IsLatched b) where
  open b use {World}

  AllLow-PinsSeen : (p : Pump) (w : World) → AllLow b w → PinsSeen b p w
  AllLow-PinsSeen p w a = (inl (a.1), inl (a.2))

  update_state-PinsSeen :
      (now : ℕ) (p : Pump) (w : World) → let r = update_state b now p w in PinsSeen b r.0 r.1
  unfolding update_state
  update_state-PinsSeen now p w =
      let p0 = update_switches b p w in
      ground (
        arith,
        update_switches-PinsSeen b l p w,
        stop-AllLow b l StopTypes.contactor_not_on now p0 w,
      )

  y-PinsSeen :
      (now : ℕ) (p : Pump) (w : World)
      → PinsSeen b p w
      → Interlocked b w
      → let r = (start_to_y b now p w).1 in PinsSeen b r.0 r.1
  unfolding start_to_y started make_log_start
  y-PinsSeen now p w s o =
      let r = let_go b k2_seen 2 p w in
      let w' = pull_in b 3 r.pump r.world in
      let armed = record (r.pump) {
        start_y_delta_state = to_delta;
        time_delta_to_y_switch = r.pump.time_delta_to_y_switch_config;
      } in
      ground (
        arith,
        let_go-PinsSeen b l k2_seen 2 p w (inl refl) s o,
        all_off-AllLow b l r.world,
        update_state-PinsSeen now r.pump w',
        update_state-PinsSeen now armed w',
      )

  start_y-PinsSeen :
      (mode : StartTypes) (now : ℕ) (p : Pump) (w : World)
      → is_to_y mode ≡ true
      → PinsSeen b p w
      → Interlocked b w
      → let r = (start b mode now p w).1 in PinsSeen b r.0 r.1
  unfolding start
  start_y-PinsSeen to_y now p w e s o = y-PinsSeen now p w s o
  start_y-PinsSeen _ now p w e s o = cc

  start-IsSafe :
      (mode : StartTypes) (now : ℕ) (p : Pump) (w : World)
      → is_y_delta mode ≡ true
      → PinsSeen b p w
      → IsSafe b p w
      → let r = (start b mode now p w).1 in IsSafe b r.0 r.1
  start-IsSafe mode now p w m s h = record {
    interlocked = start-Interlocked b l mode now p w (guarded_of_y_delta mode m) s h.interlocked;
    sequence = start_y_delta_keeps b mode now p w m h.sequence;
  }

  start_y_pending-IsSafe :
      (now : ℕ) (p : Pump) (w : World)
      → PinsSeen b p w
      → IsSafe b p w
      → let r = start_y_pending b now p w in IsSafe b r.0 r.1 × PinsSeen b r.0 r.1
  unfolding start_y_pending
  start_y_pending-IsSafe now p w s h = elim (Bool-cases (is_to_y p.start_y_delta_state)) [
    | inr e ↦ rw e (h, s)
    | inl e ↦ rw e (
      start-IsSafe p.start_y_delta_state now p w h.sequence s h,
      start_y-PinsSeen p.start_y_delta_state now p w e s h.interlocked,
    )
  ]

  switch_to_delta-IsSafe :
      (now : ℕ) (p : Pump) (w : World)
      → PinsSeen b p w
      → IsSafe b p w
      → let r = switch_to_delta b now p w in IsSafe b r.0 r.1
  unfolding switch_to_delta
  switch_to_delta-IsSafe now p w s h =
      ground (arith, start-IsSafe p.start_y_delta_state now p w h.sequence s h)

  check_start_req-IsSafe :
      (now : ℕ) (p : Pump) (w : World)
      → PinsSeen b p w
      → IsSafe b p w
      → let r = check_start_req b now p w in IsSafe b r.0 r.1
  unfolding check_start_req
  check_start_req-IsSafe now p w s h = elim (Bool-cases (is_enable p.flag_start_y_delta)) [
    | inr e ↦ rw e h
    | inl e ↦
        let r = start_y_pending b now p w in
        let (h', s') = start_y_pending-IsSafe now p w s h in
        rw e (switch_to_delta-IsSafe now (r.0) (r.1) s' h')
  ]

  -- Whatever the contactors, the thermal relay and the commands before have left, the one-second
  -- update keeps the interlock.
  pub update-IsSafe :
      (now : ℕ) (p : Pump) (w : World) → IsSafe b p w → let r = update b now p w in IsSafe b r.0 r.1
  unfolding update
  update-IsSafe now p w h =
      let r = update_state b now p w in
      let q = update_time (r.0) in
      check_start_req-IsSafe now q (r.1)
        (ground (arith, update_state-PinsSeen now p w, update_time_keeps (r.0)))
        (record {
          interlocked = update_state-Interlocked b l now p w h.interlocked;
          sequence =
              rw (update_time_keeps (r.0)).0 (rw (update_state_keeps b now p w).0 h.sequence);
        })

-- What the main loop makes of a second's tick, a protection's or command's stop, and a request for
-- a star-delta start.
pub data Event : Type 0 where
  tick : ℕ → Event
  halt : StopTypes → ℕ → Event
  request : ℕ → Event

module _ (b : Board) where
  unfoldable pub run : List Event → Pump → b.World → Pump × b.World
  run [] p w = (p, w)
  run (tick now ∷ es) p w = let r = update b now p w in run es (r.0) (r.1)
  run (halt reason now ∷ es) p w = let r = stop b reason now p w in run es (r.0) (r.1)
  run (request now ∷ es) p w = let r = (start b y_delta_req now p w).1 in run es (r.0) (r.1)

module _ (b : Board) (l : IsLatched b) where
  pub stop-IsSafe :
      (reason : StopTypes) (now : ℕ) (p : Pump) (w : b.World)
      → IsSafe b p w
      → let r = stop b reason now p w in IsSafe b r.0 r.1
  stop-IsSafe reason now p w h = record {
    interlocked = inl ((stop-AllLow b l reason now p w).1);
    sequence = rw (stop_keeps b reason now p w).1 h.sequence;
  }

  -- On a board whose outputs keep their level: after any sequence of one-second updates, stops and
  -- requests for a star-delta start, from a state that is safe, the state is safe. Safe means that
  -- the outputs of K2 and K3 are not both high and that the next step of the sequence is one that
  -- looks at the other contactor first.
  pub run-IsSafe :
      (es : List Event) (p : Pump) (w : b.World)
      → IsSafe b p w
      → let r = run b es p w in IsSafe b r.0 r.1
  unfolding run
  run-IsSafe [] p w h = h
  run-IsSafe (tick now ∷ es) p w h = run-IsSafe es _ _ (update-IsSafe b l now p w h)
  run-IsSafe (halt reason now ∷ es) p w h = run-IsSafe es _ _ (stop-IsSafe reason now p w h)
  run-IsSafe (request now ∷ es) p w h =
      let r = (start b y_delta_req now p w).1 in
      run-IsSafe es (r.0) (r.1)
        (unfold start in record { interlocked = h.interlocked; sequence = refl })
