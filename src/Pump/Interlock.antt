-- ===== src/Pump/Interlock.antt =====
-- The interlock of Pump: the contactors K2 (delta) and K3 (star) short the supply if both close, so
-- their outputs are never to be high together.
pub mod Start
pub mod Run
pub mod Events
pub mod Stale
use acionna.Prelude.{
  u32, ℕ, zero, suc, ◌+◌, ◌-◌, ◌*◌, ◌<◌, ◌≡◌, refl, ◌∙◌, ◌⊎◌, inl, inr, Bool, true, false, arith,
  ltb, if◌then◌else◌, Bool-cases, ◌≢◌,
}
use acionna.Types.{StopTypes, off, on, StartTypes}
use acionna.Board.{Board, IsLatched}
use acionna.Pump.State.{Pump, wait_limit, update_switches}
use acionna.Pump.Stop.{stop, all_off, update_state, make_log_start}
use acionna.Pump.Start.{
  wait_while, wait_from_zero, let_go, pull_in, k2_seen, k3_seen, k1_seen, started, start_direct_k1,
  start_to_delta, start_to_y, start,
}
use acionna.Pump.Levels.{
  AllLow, all_off-AllLow, stop-AllLow, level-wait_while, update_state_outputs,
}

module _ (b : Board) where
  open b use {World, load_level, load_write, delay_us}

  -- Not both outputs high.
  abbrev pub Interlocked : World → Type 0
  Interlocked w = (load_level 1 w ≡ false) ⊎ (load_level 2 w ≡ false)

  -- The pump's copies of the output pins of K2 and K3 miss no high pin.
  abbrev pub PinsSeen : Pump → World → Type 0
  PinsSeen p w =
      ((load_level 1 w ≡ false) ⊎ (p.state_k2_pin ≡ on))
      × ((load_level 2 w ≡ false) ⊎ (p.state_k3_pin ≡ on))

module _ (b : Board) (l : IsLatched b) where
  open b use {World, load_level, load_write, delay_us}

  pub update_switches-PinsSeen : (p : Pump) (w : World) → PinsSeen b (update_switches b p w) w
  unfolding update_switches
  update_switches-PinsSeen p w = ground arith

  pub wait_while-PinsSeen :
      (test : Pump → Bool) (limit f i : ℕ) (p : Pump) (w : World)
      → PinsSeen b p w
      → let r = wait_while b test limit f i p w in PinsSeen b r.pump r.world
  unfolding wait_while
  wait_while-PinsSeen test limit zero i p w h = h
  wait_while-PinsSeen test limit (suc f) i p w h =
      let w' = delay_us 1 w in
      let p' = update_switches b p w' in
      ground (
        arith,
        update_switches-PinsSeen p w',
        wait_while-PinsSeen test limit f (i + 1) p' w' (update_switches-PinsSeen p w'),
      )

  pub update_state-Interlocked :
      (now : ℕ) (p : Pump) (w : World) → Interlocked b w → Interlocked b (update_state b now p w).1
  update_state-Interlocked now p w h = elim (update_state_outputs b l now p w) [
    | inl e ↦ rw e h
    | inr a ↦ inl (a.1)
  ]

  pub started-Interlocked :
      (mode : StartTypes) (now : ℕ) (p : Pump) (w : World)
      → Interlocked b w
      → Interlocked b (started b mode now p w).1.1
  unfolding started
  started-Interlocked mode now p w h = update_state-Interlocked now p w h

  pub keeps-PinsSeen : (p : Pump) (t : ℕ) (w : World) → PinsSeen b p w → PinsSeen b p (delay_us t w)
  keeps-PinsSeen p t w h = ground (arith, l.keeps 1 t w, l.keeps 2 t w)

  lowered-PinsSeen :
      (p : Pump) (i : ℕ) (w : World)
      → (i ≡ 1) ⊎ (i ≡ 2)
      → PinsSeen b p w
      → PinsSeen b p (load_write i false w)
  lowered-PinsSeen p i w (inl e) h =
      rw e (ground (arith, l.reads_back 1 false w (omega arith), l.apart 1 2 false w (omega arith)))
  lowered-PinsSeen p i w (inr e) h =
      rw e (ground (arith, l.reads_back 2 false w (omega arith), l.apart 2 1 false w (omega arith)))

  pub lowered-Interlocked :
      (i : ℕ) (w : World)
      → (i ≡ 1) ⊎ (i ≡ 2)
      → Interlocked b w
      → Interlocked b (load_write i false w)
  lowered-Interlocked i w (inl e) h = rw e (ground (arith, l.reads_back 1 false w (omega arith)))
  lowered-Interlocked i w (inr e) h = rw e (ground (arith, l.reads_back 2 false w (omega arith)))

  -- Releasing K2 or K3 keeps the interlock and the copies right, whether or not it succeeds.
  pub let_go-PinsSeen :
      (seen : Pump → Bool) (k : ℕ) (p : Pump) (w : World)
      → (k - 1 ≡ 1) ⊎ (k - 1 ≡ 2)
      → PinsSeen b p w
      → Interlocked b w
      → let r = let_go b seen k p w in PinsSeen b r.pump r.world × Interlocked b r.world
  unfolding let_go
  let_go-PinsSeen seen k p w h s o =
      let i = k - 1 in
      let w1 = load_write i false w in
      let r = wait_from_zero b seen p w1 in
      let t = u32 (r.pump.time_switch_k_change * 1000) in
      ground (
        arith,
        lowered-PinsSeen p i w h s,
        lowered-Interlocked i w h o,
        wait_while-PinsSeen seen (wait_limit p) (suc (wait_limit p)) 0 p w1
            (lowered-PinsSeen p i w h s),
        level-wait_while b l 1 seen (wait_limit p) (suc (wait_limit p)) 0 p w1,
        level-wait_while b l 2 seen (wait_limit p) (suc (wait_limit p)) 0 p w1,
        l.keeps 1 t r.world,
        l.keeps 2 t r.world,
      )
