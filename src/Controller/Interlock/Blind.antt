-- ===== src/Controller/Interlock/Blind.antt =====
-- The start modes that keep the interlock whatever the pump's copies of the pins say.
use acionna.Prelude.{
  u32, ℕ, suc, ◌*◌, ◌≡◌, refl, ap, ◌∙◌, Bool, true, false, not, Bool-cases, inl, inr,
}
use acionna.Types.{StartTypes, StopTypes, direct_k1, y_delta_req, unlisted, is_on}
use acionna.Board.{Board, IsLatched}
use acionna.Pump.State.{Pump, wait_limit}
use acionna.Pump.Start.{wait_from_zero, start_direct_k1, start}
use acionna.Pump.Frame.{stop_keeps, erase-wait_while}
use acionna.Pump.Interlock.{started-Interlocked}
use acionna.Pump.Interlock.Start.{direct_k1_safe}
use acionna.Pump.Interlock.Run.{started_keeps}
use acionna.Pump.Interlock.Events.{IsSafe}

-- These drive neither K2 nor K3, or leave it to the one-second update, which looks first.
abbrev pub is_blind : StartTypes → Bool
is_blind direct_k1 = true
is_blind y_delta_req = true
is_blind (unlisted n) = true
is_blind _ = false

module _ (b : Board) where
  open b use {World, load_write, delay_us}

  direct_k1_keeps :
      (now : ℕ) (p : Pump) (w : World)
      → (start_direct_k1 b now p w).1.0.start_y_delta_state ≡ p.start_y_delta_state
  unfolding start_direct_k1
  direct_k1_keeps now p w =
      let test = λ (q : Pump). not (is_on q.state_k1) in
      let w1 = load_write 0 true w in
      let r = wait_from_zero b test p w1 in
      let e =
        ap (λ (x : Pump). x.start_y_delta_state)
          (erase-wait_while b test (wait_limit p) (suc (wait_limit p)) 0 p w1) in
      let w' = delay_us (u32 (r.pump.time_switch_k_change * 1000)) r.world in
      elim (Bool-cases r.late) [
        | inl t ↦ rw t ((stop_keeps b StopTypes.contactor_not_on now r.pump r.world).1 ∙ e)
        | inr t ↦ rw t (started_keeps b direct_k1 now (record (r.pump) { time_k1_on = r.i }) w' ∙ e)
      ]

module _ (b : Board) (l : IsLatched b) where
  open b use {World}

  -- A start in such a mode needs nothing of the copies.
  pub start-IsSafe :
      (mode : StartTypes) (now : ℕ) (p : Pump) (w : World)
      → is_blind mode ≡ true
      → IsSafe b p w
      → let r = (start b mode now p w).1 in IsSafe b r.0 r.1
  unfolding start
  start-IsSafe direct_k1 now p w m h = record {
    interlocked = direct_k1_safe b l now p w h.interlocked;
    sequence = rw (direct_k1_keeps b now p w) h.sequence;
  }
  start-IsSafe y_delta_req now p w m h = record { interlocked = h.interlocked; sequence = refl }
  start-IsSafe (unlisted n) now p w m h = record {
    interlocked = started-Interlocked b l (unlisted n) now p w h.interlocked;
    sequence = rw (started_keeps b (unlisted n) now p w) h.sequence;
  }
  start-IsSafe _ now p w m h = cc
