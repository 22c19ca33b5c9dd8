-- ===== src/Controller/Message.antt =====
-- Acionna::handle_message (main/acionna/acionna.cpp): the `switch` over the families of commands. The
-- families $2x (the LED) and $9x (network, firmware, restart) touch none of the
-- members that the model has. `none` is an access outside an array.
use acionna.Prelude.{ℕ, ◌==◌, if◌then◌else◌, List, Option, none, some}
use acionna.Board.{Board}
use acionna.Controller.State.{Acionna}
use acionna.Controller.Command.{digit_at, command_3, command_50, command_6}
use acionna.Controller.Optimized.{command_51}
use acionna.Controller.SetClock.{TimeSource, command_1}
use acionna.Controller.Settings.{command_0}
use acionna.Controller.Checks.{command_7}
use acionna.Controller.Sectors.{command_80}
use acionna.Controller.Module.{overruns_samples, module_command}

-- $50 and $51
unfoldable pub command_5 : List ℕ → Acionna → Option Acionna
command_5 command a =
    if digit_at command 2 == 0
    then command_50 command a
    else if digit_at command 2 == 1
    then command_51 command a
    else some a

module _ (b : Board) where
  open b use {World}

  abbrev pub Outcome : Type 0
  Outcome = Option (Acionna × World)

  -- The families $8x work on the valves alone.
  unfoldable pub command_8 : List ℕ → Acionna → World → Outcome
  command_8 command a w =
      let opcode = digit_at command 2 in
      let r = module_command b opcode command a.valves w in
      if opcode == 0
      then elim (command_80 b command a.pressure a.valves w) [
        | none ↦ none
        | some s ↦ some (record a { valves = s.0 }, s.1)
      ]
      else if overruns_samples opcode command a.valves
      then none
      else some (record a { valves = r.0 }, r.1)

  unfoldable pub handle_message : TimeSource → List ℕ → Acionna → World → Outcome
  handle_message source command a w =
      let family = digit_at command 1 in
      if family == 0
      then some (command_0 command a, w)
      else if family == 1
      then some (command_1 source command a, w)
      else if family == 3
      then some (command_3 b command a w)
      else if family == 5
      then elim (command_5 command a) [ none ↦ none | some s ↦ some (s, w) ]
      else if family == 6
      then some (command_6 command a, w)
      else if family == 7
      then some (command_7 command a, w)
      else if family == 8
      then command_8 command a w
      else some (a, w)
