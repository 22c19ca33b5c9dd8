-- ===== src/Controller/Module.antt =====
-- Acionna::handle_message (main/acionna/acionna.cpp): the commands $83 to $89, which talk to the
-- valves' I2C module, through the functions of class Valves (main/acionna/valves.hpp) that pass
-- them on. The number of samples is checked where the commands are dispatched, in Controller/Message.
use acionna.Prelude.{ℕ, Bool, ◌&&◌, ltb, ◌==◌, if◌then◌else◌, List, [], ◌∷◌}
use acionna.Board.{Board}
use acionna.Expander
use acionna.Expander.{Expander}
use acionna.Valves.State.{Valves}
use acionna.Controller.Command.{at_place, digits_from, digit_at, matches}
use acionna.Controller.Hex.{hexstr_to_int, word16}
use acionna.Controller.Sectors.{module_put}

abbrev with_load : {W : Type 0} → Valves → Expander × W → Valves × W
with_load v r = (record v { load = r.0 }, r.1)

-- $86:d; with more samples than `stream_array_raw` has: `i_data` writes past its end.
abbrev pub overruns_samples : ℕ → List ℕ → Valves → Bool
overruns_samples opcode command v =
    (opcode == 6)
    && matches command ((3, 58) ∷ (4, 100) ∷ (5, 59) ∷ [])
    && ltb Expander.max_samples v.load.n_samples

module _ (b : Board) where
  open b use {World}

  -- $84:04F3;
  unfoldable pub command_84 : List ℕ → Valves → World → Valves × World
  command_84 command v w =
      let digits =
        at_place command 4 ∷ at_place command 5 ∷ at_place command 6 ∷ at_place command 7 ∷ [] in
      if matches command ((3, 58) ∷ (8, 59) ∷ [])
      then module_put b (word16 (hexstr_to_int digits)) v w
      else (v, w)

  -- $85:0; $85:1; $85;
  unfoldable pub command_85 : List ℕ → Valves → World → Valves × World
  command_85 command v w =
      if matches command ((3, 58) ∷ (5, 59) ∷ [])
      then (if digit_at command 4 == 0
          then (v, Expander.get1 b w)
          else with_load v (Expander.get2 b v.load w))
      else if matches command ((3, 59) ∷ [])
      then with_load v (Expander.get b v.load w)
      else (v, w)

  -- `atoi` of '0' and the three characters from place 6 on.
  abbrev n_points_of : List ℕ → ℕ
  n_points_of command =
      digits_from 0 (48 ∷ at_place command 6 ∷ at_place command 7 ∷ at_place command 8 ∷ [])

  -- module_i_data_transfer() and module_i_n_points()
  unfoldable pub read_samples : Valves → World → Valves × World
  read_samples v w =
      let r = Expander.i_data b v.load w in
      let s = Expander.i_n_points b (r.0) (r.1) in (record v { load = s.1 }, s.2)

  -- $86:d; $86:i; $86:n:397; $86:n; $86:p; $86:t; $86:u; $86:v;
  unfoldable pub command_86 : List ℕ → Valves → World → Valves × World
  command_86 command v w =
      let s = Expander.i_n_points b v.load w in
      if matches command ((3, 58) ∷ (4, 100) ∷ (5, 59) ∷ [])
      then read_samples v w
      else if matches command ((3, 58) ∷ (4, 105) ∷ (5, 59) ∷ [])
      then (v, (Expander.irms b w).1)
      else if matches command ((3, 58) ∷ (4, 110) ∷ (5, 58) ∷ (9, 59) ∷ [])
      then (v, Expander.set_i_n_points b (n_points_of command) w)
      else if matches command ((3, 58) ∷ (4, 110) ∷ (5, 59) ∷ [])
      then (record v { load = s.1 }, s.2)
      else if matches command ((3, 58) ∷ (4, 112) ∷ (5, 59) ∷ [])
      then (v, Expander.i_process b 0 w)
      else if matches command ((3, 58) ∷ (4, 116) ∷ (5, 59) ∷ [])
      then (v, (Expander.temperature b w).1)
      else if matches command ((3, 58) ∷ (4, 117) ∷ (5, 59) ∷ [])
      then (v, (Expander.uptime b w).1)
      else if matches command ((3, 58) ∷ (4, 118) ∷ (5, 59) ∷ [])
      then (v, (Expander.data_test b w).1)
      else (v, w)

  -- The opcodes 3 to 9 of the `switch`.
  unfoldable pub module_command : ℕ → List ℕ → Valves → World → Valves × World
  module_command opcode command v w =
      if opcode == 3
      then (v, (Expander.irms b w).1)
      else if opcode == 4
      then command_84 command v w
      else if opcode == 5
      then command_85 command v w
      else if opcode == 6
      then command_86 command v w
      else if opcode == 8
      then (v, (Expander.probe b w).1)
      else if opcode == 9
      then (v, Expander.soft_reset b w)
      else (v, w)
