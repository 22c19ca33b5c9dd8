-- ===== src/Pump/Interlock/Start.antt =====
-- Pump::start and the interlock of K2 and K3, case by case.
use acionna.Prelude.{u32, ℕ, suc, ◌*◌, ◌≡◌, refl, inl, inr, Bool, true, false, not, arith}
use acionna.Types.{StopTypes, StartTypes, direct_k1, to_delta, to_y, y_delta_req, unlisted, is_on}
use acionna.Board.{Board, IsLatched}
use acionna.Pump.State.{Pump, wait_limit}
use acionna.Pump.Start.{
  wait_from_zero, let_go, pull_in, k2_seen, k3_seen, start_direct_k1, start_to_delta, start_to_y,
  start,
}
use acionna.Pump.Levels.{all_off-AllLow, stop-AllLow, level-wait_while}
use acionna.Pump.Interlock.{Interlocked, PinsSeen, started-Interlocked, let_go-PinsSeen}

-- The start modes that drive at most one of K2 and K3 and look at the other first.
abbrev pub is_guarded : StartTypes → Bool
is_guarded StartTypes.direct_k2 = false
is_guarded StartTypes.direct_k3 = false
is_guarded _ = true

module _ (b : Board) (l : IsLatched b) where
  open b use {World, load_level, load_write, delay_us}

  -- Pulling K2 in leaves the output of K3 alone, and the other way round.
  pull_in_other :
      (p : Pump) (w : World)
      → (load_level 2 (pull_in b 2 p w) ≡ load_level 2 w)
        × (load_level 1 (pull_in b 3 p w) ≡ load_level 1 w)
  unfolding pull_in
  pull_in_other p w =
      let t = u32 (p.time_switch_k_change * 1000) in
      let v2 = load_write 1 true w in
      let v3 = load_write 2 true w in
      ground (
        arith,
        l.keeps 2 t v2,
        l.keeps 2 t (load_write 0 true v2),
        l.apart 0 2 true v2 (omega arith),
        l.apart 1 2 true w (omega arith),
        l.keeps 1 t v3,
        l.keeps 1 t (load_write 0 true v3),
        l.apart 0 1 true v3 (omega arith),
        l.apart 2 1 true w (omega arith),
      )

  delta_safe :
      (now : ℕ) (p : Pump) (w : World)
      → PinsSeen b p w
      → Interlocked b w
      → Interlocked b (start_to_delta b now p w).1.1
  unfolding start_to_delta
  delta_safe now p w s o =
      let r = let_go b k3_seen 3 p w in
      let w' = pull_in b 2 r.pump r.world in
      ground (
        arith,
        let_go-PinsSeen b l k3_seen 3 p w (inr refl) s o,
        all_off-AllLow b l r.world,
        pull_in_other r.pump r.world,
        λ (h : Interlocked b w'). started-Interlocked b l to_delta now r.pump w' h,
      )

  y_safe :
      (now : ℕ) (p : Pump) (w : World)
      → PinsSeen b p w
      → Interlocked b w
      → Interlocked b (start_to_y b now p w).1.1
  unfolding start_to_y
  y_safe now p w s o =
      let r = let_go b k2_seen 2 p w in
      let w' = pull_in b 3 r.pump r.world in
      let armed = record (r.pump) {
        start_y_delta_state = to_delta;
        time_delta_to_y_switch = r.pump.time_delta_to_y_switch_config;
      } in
      ground (
        arith,
        let_go-PinsSeen b l k2_seen 2 p w (inl refl) s o,
        all_off-AllLow b l r.world,
        pull_in_other r.pump r.world,
        λ (h : Interlocked b w'). started-Interlocked b l to_y now r.pump w' h,
        λ (h : Interlocked b w'). started-Interlocked b l to_y now armed w' h,
      )

  pub direct_k1_safe :
      (now : ℕ) (p : Pump) (w : World)
      → Interlocked b w
      → Interlocked b (start_direct_k1 b now p w).1.1
  unfolding start_direct_k1
  direct_k1_safe now p w o =
      let test = λ (q : Pump). not (is_on q.state_k1) in
      let w1 = load_write 0 true w in
      let r = wait_from_zero b test p w1 in
      let t = u32 (r.pump.time_switch_k_change * 1000) in
      let w' = delay_us t r.world in
      ground (
        arith,
        l.apart 0 1 true w (omega arith),
        l.apart 0 2 true w (omega arith),
        level-wait_while b l 1 test (wait_limit p) (suc (wait_limit p)) 0 p w1,
        level-wait_while b l 2 test (wait_limit p) (suc (wait_limit p)) 0 p w1,
        l.keeps 1 t r.world,
        l.keeps 2 t r.world,
        stop-AllLow b l StopTypes.contactor_not_on now r.pump r.world,
        λ (h : Interlocked b w').
            started-Interlocked b l direct_k1 now (record (r.pump) { time_k1_on = r.i }) w' h,
      )

  -- On a board whose outputs keep their level, a guarded start, on every one of its branches, keeps the interlock, if the pump's copies of
  -- the pins are right when it is called.
  pub start-Interlocked :
      (mode : StartTypes) (now : ℕ) (p : Pump) (w : World)
      → is_guarded mode ≡ true
      → PinsSeen b p w
      → Interlocked b w
      → Interlocked b (start b mode now p w).1.1
  unfolding start
  start-Interlocked direct_k1 now p w g s o = direct_k1_safe now p w o
  start-Interlocked StartTypes.direct_k2 now p w g s o = cc
  start-Interlocked StartTypes.direct_k3 now p w g s o = cc
  start-Interlocked to_delta now p w g s o = delta_safe now p w s o
  start-Interlocked to_y now p w g s o = y_safe now p w s o
  start-Interlocked y_delta_req now p w g s o = o
  start-Interlocked (unlisted n) now p w g s o = started-Interlocked b l (unlisted n) now p w o
