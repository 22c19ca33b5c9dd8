-- ===== src/Controller/Interlock/Message.antt =====
-- Acionna::handle_message and the interlock.
use acionna.Prelude.{ℕ, ◌≡◌, Bool, true, List, [], ◌∷◌, Option, none, some, ◌==◌, leb}
use acionna.Types.{StopTypes}
use acionna.Board.{Board, IsLatched, IsWired}
use acionna.Valves.State.{Valves}
use acionna.Valves.Range.{InRange}
use acionna.Valves.Wires.{All, one_of, SameLevels, ValvesSame}
use acionna.Controller.State.{Acionna}
use acionna.Controller.Command.{digit_at, mode_of, matches, command_3, command_6}
use acionna.Controller.Settings.{command_0}
use acionna.Controller.Checks.{command_7}
use acionna.Controller.Sectors.{command_80}
use acionna.Controller.Module.{overruns_samples, module_command}
use acionna.Controller.SetClock.{TimeSource, command_1}
use acionna.Controller.Message.{command_5, command_8, handle_message}
use acionna.Controller.Wires.{command_80-SameLevels, module-SameLevels}
use acionna.Controller.Interlock.Blind.{is_blind}
use acionna.Controller.Interlock.State.{IsWell, pick, valves-IsWell, stop-IsWell, start_pump-IsWell}
use acionna.Controller.Interlock.Modes.{given, leaves_modes}
use acionna.Controller.Interlock.Events.{command_5-IsWell}
use acionna.Controller.Interlock.Sectors.{leaves_order, command_80-InRange, module-InRange}
use acionna.Controller.Interlock.Settings.{settings-IsWell, command_6-IsWell}

-- The commands that the interlock allows: of $3x all but the starts that drive K2 or K3 at once
-- ($32 to $35), of $5x all but those that schedule such a start, of $6x all but $63 where `enters` says
-- that the optimized mode is not to be entered, and of $80 all but the turning of the order while the
-- sequence runs.
pub record IsAllowed (enters : Bool) (command : List ℕ) (v : Valves) : Type 0 where
  pub direct : (digit_at command 1 == 3) ≡ true → is_blind (mode_of (digit_at command 2)) ≡ true
  pub modes : (digit_at command 1 == 5) ≡ true → leaves_modes command ≡ true
  pub optimized :
      (digit_at command 1 == 6) ≡ true → (digit_at command 2 == 3) ≡ true → enters ≡ true
  pub order : (digit_at command 1 == 8) ≡ true → leaves_order command v ≡ true

both :
    {W : Type 0} (P : Valves × W → Type 0) (Q : Valves × W → Type 0) (m : Option (Valves × W))
    → All P m
    → All Q m
    → All (λ r. P r × Q r) m
both P Q none h k = tt
both P Q (some r) h k = (h, k)

abbrev pub Leaves : (b : Board) → Bool → Acionna × b.World → Type 0
Leaves b enters r = IsWell b enters r.0 r.1

with_state-IsWell :
    (b : Board) (enters : Bool) (w : b.World) (m : Option Acionna)
    → All (λ x. IsWell b enters x w) m
    → All
        (Leaves b enters)
        (elim m as (λ x. Option (Acionna × b.World)) [ none ↦ none | some s ↦ some (s, w) ])
with_state-IsWell b enters w none h = tt
with_state-IsWell b enters w (some s) h = h

module _ (b : Board) (l : IsLatched b) (c : IsWired b) {enters : Bool} where
  open b use {World}

  command_3-IsWell :
      (command : List ℕ) (a : Acionna) (w : World)
      → is_blind (mode_of (digit_at command 2)) ≡ true
      → IsWell b enters a w
      → let r = command_3 b command a w in IsWell b enters r.0 r.1
  unfolding command_3
  command_3-IsWell command a w e h =
      let opcode = digit_at command 2 in
      pick b (matches command ((3, 59) ∷ [])) _ _
        (pick b (opcode == 0) _ _ (stop-IsWell b l StopTypes.command_line_user a w h)
          (pick b (leb opcode 6) _ _ (start_pump-IsWell b l (mode_of opcode) a w e h) h))
        h

  with_valves-IsWell :
      (a : Acionna) (w : World) (m : Option (Valves × World))
      → IsWell b enters a w
      → All (λ r. SameLevels b w r.1 × InRange r.0) m
      → All (Leaves b enters) (elim m as (λ x. Option (Acionna × World)) [
        | none ↦ none
        | some s ↦ some (record a { valves = s.0 }, s.1)
      ])
  with_valves-IsWell a w none h k = tt
  with_valves-IsWell a w (some s) h k = valves-IsWell b a (s.0) w (s.1) k.0 k.1 h

  command_8-IsWell :
      (command : List ℕ) (a : Acionna) (w : World)
      → leaves_order command a.valves ≡ true
      → IsWell b enters a w
      → All (Leaves b enters) (command_8 b command a w)
  unfolding command_8
  command_8-IsWell command a w o h =
      let v = a.valves in
      let m = command_80 b command a.pressure v w in
      let r = module_command b (digit_at command 2) command v w in
      one_of (Leaves b enters) (digit_at command 2 == 0) _ _
        (with_valves-IsWell a w m h (
          both (ValvesSame b l c w) (λ s. InRange s.0) m
            (command_80-SameLevels b l c command a.pressure v w)
            (command_80-InRange b command a.pressure v w o h.sectors)))
        (one_of (Leaves b enters) (overruns_samples (digit_at command 2) command v) _ _ tt (
          valves-IsWell b a (r.0) w (r.1) (module-SameLevels b l c (digit_at command 2) command v w)
            (module-InRange b (digit_at command 2) command v w h.sectors) h))

  -- A command that is allowed leaves what is well well, if it has a result.
  pub handle_message-IsWell :
      (source : TimeSource) (command : List ℕ) (a : Acionna) (w : World)
      → IsAllowed enters command a.valves
      → IsWell b enters a w
      → All (Leaves b enters) (handle_message b source command a w)
  unfolding handle_message
  handle_message-IsWell source command a w k h =
      let family = digit_at command 1 in
      let settings = settings-IsWell b command source a w h in
      one_of (Leaves b enters) (family == 0) (some (command_0 command a, w)) _ settings.0 (
        one_of (Leaves b enters) (family == 1) (some (command_1 source command a, w)) _ settings.1 (
          given (Leaves b enters) (family == 3) (some (command_3 b command a w)) _
            (λ t. command_3-IsWell command a w (k.direct t) h)
            (λ _.
              given (Leaves b enters) (family == 5) _ _
                (λ t.
                  with_state-IsWell b enters w (command_5 command a)
                    (command_5-IsWell b command a w (k.modes t) h))
                (λ _.
                  given (Leaves b enters) (family == 6) (some (command_6 command a, w)) _
                    (λ t. command_6-IsWell b command a w (k.optimized t) h)
                    (λ _.
                      one_of (Leaves b enters) (family == 7) (some (command_7 command a, w)) _
                        settings.2
                        (given (Leaves b enters) (family == 8) (command_8 b command a w)
                          (some (a, w)) (λ t. command_8-IsWell command a w (k.order t) h)
                          (λ _. h)))))))
