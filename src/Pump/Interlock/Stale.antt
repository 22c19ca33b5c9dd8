-- ===== src/Pump/Interlock/Stale.antt =====
-- A star start right after a delta start of the star-delta sequence, before the next second: the
-- delta start returns without reading the pins again.
use acionna.Prelude.{u32, ℕ, ◌*◌, ◌≡◌, refl, ◌∙◌, true, false, arith}
use acionna.Types.{to_y, enable, disable}
use acionna.Board.{Board, IsLatched}
use acionna.Pump.State.{Pump}
use acionna.Pump.Start.{let_go, pull_in, k2_seen, k3_seen, started, start_to_y, start_to_delta}

module _ (b : Board) (l : IsLatched b) where
  open b use {World, load_level, load_write}

  pull_in_self :
      (p : Pump) (w : World)
      → (load_level 1 (pull_in b 2 p w) ≡ true)
        × (load_level 2 (pull_in b 3 p w) ≡ true)
        × (load_level 1 (pull_in b 3 p w) ≡ load_level 1 w)
  unfolding pull_in
  pull_in_self p w =
      let t = u32 (p.time_switch_k_change * 1000) in
      let v2 = load_write 1 true w in
      let v3 = load_write 2 true w in
      ground (
        arith,
        l.keeps 1 t v2,
        l.keeps 1 t (load_write 0 true v2),
        l.apart 0 1 true v2 (omega arith),
        l.reads_back 1 true w (omega arith),
        l.keeps 2 t v3,
        l.keeps 2 t (load_write 0 true v3),
        l.apart 0 2 true v3 (omega arith),
        l.reads_back 2 true w (omega arith),
        l.keeps 1 t v3,
        l.keeps 1 t (load_write 0 true v3),
        l.apart 0 1 true v3 (omega arith),
        l.apart 2 1 true w (omega arith),
      )

  delta_returns_early :
      (now : ℕ) (p : Pump) (w : World)
      → let r = let_go b k3_seen 3 p w in
        r.late ≡ false
        → k3_seen r.pump ≡ false
        → r.pump.flag_start_y_delta ≡ enable
        → start_to_delta b now p w ≡ (0, (r.pump, pull_in b 2 r.pump r.world))
  unfolding start_to_delta
  delta_returns_early now p w late k3 flag = rw late (rw k3 (rw flag))

  y_drives_unseen :
      (now : ℕ) (p : Pump) (w : World)
      → k2_seen p ≡ false
      → p.flag_start_y_delta ≡ disable
      → start_to_y b now p w ≡ started b to_y now p (pull_in b 3 p w)
  unfolding start_to_y let_go
  y_drives_unseen now p w k2 flag = ground arith

  -- The delta step of the sequence lets K3 go in time and sees K2 off, and returns success. A star
  -- start that follows, the sequence's flag cleared, finds K2 off in its copies although its output
  -- is high, and drives K3: it goes on from a world in which both outputs are high.
  pub start_to_y_shorts :
      (now : ℕ) (p : Pump) (w : World)
      → (let_go b k3_seen 3 p w).late ≡ false
      → k3_seen (let_go b k3_seen 3 p w).pump ≡ false
      → k2_seen (let_go b k3_seen 3 p w).pump ≡ false
      → (let_go b k3_seen 3 p w).pump.flag_start_y_delta ≡ enable
      → let r = let_go b k3_seen 3 p w in
        let v = pull_in b 2 r.pump r.world in
        let idle = record (r.pump) { flag_start_y_delta = disable } in
        let v' = pull_in b 3 idle v in
        (start_to_delta b now p w ≡ (0, (r.pump, v)))
        × (start_to_y b now idle v ≡ started b to_y now idle v')
        × (load_level 1 v' ≡ true)
        × (load_level 2 v' ≡ true)
  start_to_y_shorts now p w late k3 k2 flag =
      let r = let_go b k3_seen 3 p w in
      let v = pull_in b 2 r.pump r.world in
      let idle = record (r.pump) { flag_start_y_delta = disable } in
      (
        delta_returns_early now p w late k3 flag,
        y_drives_unseen now idle v k2 refl,
        (pull_in_self idle v).2 ∙ (pull_in_self r.pump r.world).0,
        (pull_in_self idle v).1,
      )
