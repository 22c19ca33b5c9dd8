-- ===== src/Pump/Levels.antt =====
-- What the methods of Pump do to the three output pins.
use acionna.Prelude.{ℕ, zero, suc, ◌+◌, ◌≡◌, refl, ◌∙◌, ◌⊎◌, Bool, false, arith}
use acionna.Types.{StopTypes}
use acionna.Board.{Board, IsLatched}
use acionna.Pump.State.{Pump, update_switches}
use acionna.Pump.Stop.{Release, release, release_round, all_off, stop, update_state}
use acionna.Pump.Start.{wait_while}

-- Low on all three outputs.
abbrev pub AllLow : (b : Board) → b.World → Type 0
AllLow b w = (b.load_level 0 w ≡ false) × (b.load_level 1 w ≡ false) × (b.load_level 2 w ≡ false)

module _ (b : Board) (l : IsLatched b) where
  open b use {World, load_level, load_write, delay_us}

  pub level-wait_while :
      (j : ℕ) (test : Pump → Bool) (limit f i : ℕ) (p : Pump) (w : World)
      → load_level j (wait_while b test limit f i p w).world ≡ load_level j w
  unfolding wait_while
  level-wait_while j test limit zero i p w = refl
  level-wait_while j test limit (suc f) i p w =
      let w' = delay_us 1 w in
      ground
        (arith, l.keeps j 1 w, level-wait_while j test limit f (i + 1) (update_switches b p w') w')

  pub level-release :
      (j limit f : ℕ) (r : Release World)
      → load_level j (release b limit f r).world ≡ load_level j r.world
  unfolding release
  level-release j limit zero r = refl
  level-release j limit (suc f) r =
      ground (arith, l.keeps j 1 r.world, level-release j limit f (release_round b r))

  pub all_off-AllLow : (w : World) → AllLow b (all_off b w)
  unfolding all_off
  all_off-AllLow w =
      let w1 = load_write 0 false w in
      let w2 = load_write 1 false w1 in
      (
        l.apart 2 0 false w2 (omega arith)
            ∙ l.apart 1 0 false w1 (omega arith)
            ∙ l.reads_back 0 false w (omega arith),
        l.apart 2 1 false w2 (omega arith) ∙ l.reads_back 1 false w1 (omega arith),
        l.reads_back 2 false w2 (omega arith),
      )

  -- On a board whose outputs keep their level, all three outputs are low after `stop`, whatever the
  -- contactors did.
  pub stop-AllLow :
      (reason : StopTypes) (now : ℕ) (p : Pump) (w : World) → AllLow b (stop b reason now p w).1
  unfolding stop
  stop-AllLow reason now p w = simp level-release (all_off-AllLow w)

  -- `update_state_` either leaves the outputs alone or stops the motor.
  pub update_state_outputs :
      (now : ℕ) (p : Pump) (w : World)
      → ((update_state b now p w).1 ≡ w) ⊎ AllLow b (update_state b now p w).1
  unfolding update_state update_switches
  update_state_outputs now p w =
      ground (arith, stop-AllLow StopTypes.contactor_not_on now (update_switches b p w) w)
