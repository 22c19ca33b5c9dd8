-- ===== src/Controller/Wires.antt =====
-- The commands $8x leave the levels of the pump's outputs alone.
use acionna.Prelude.{Bool, true, false, ℕ, zero, suc, ◌*◌, ◌∙◌, List, [], ◌∷◌, some, ◌==◌, leb, ℤ}
use acionna.Board.{Board, IsLatched, IsWired}
use acionna.Expander
use acionna.Expander.{Expander}
use acionna.Valves.State.{Valves, n_valves, set_valve_state, get_valve_state}
use acionna.Valves.Wires.{
  All, one_of, SameLevels, same_levels, chain, either_way, ValvesSame, put-SameLevels,
  ask-SameLevels, set_valve_state-SameLevels, start-SameLevels, stop-SameLevels,
}
use acionna.Controller.Command.{at_place, digit_at, two_digits, matches}
use acionna.Controller.Sectors.{
  all_printed, module_put, look, look_all, switch_valve, rain_at_eleven, set_rain, valve_command,
  command_80_v, command_80,
}
use acionna.Controller.Answer.{list_fits, rain_fits}
use acionna.Controller.Module.{command_84, command_85, read_samples, command_86, module_command}

module _ (b : Board) (l : IsLatched b) (c : IsWired b) where
  open b use {World}

  look-SameLevels : (id : ℕ) (r : Valves × World) → SameLevels b r.1 (look b id r).1
  unfolding get_valve_state Expander.read Expander.get
  look-SameLevels id r = ask-SameLevels b l c Expander.reg_get 2 (r.1)

  look_all-SameLevels : (n : ℕ) (r : Valves × World) → SameLevels b r.1 (look_all b n r).1
  unfolding look_all
  look_all-SameLevels zero r = same_levels b (r.1)
  look_all-SameLevels (suc n) r =
      chain b (r.1) (look_all b n r).1 _ (look_all-SameLevels n r)
        (look-SameLevels (suc n) (look_all b n r))

  module_put-SameLevels :
      (word : ℕ) (v : Valves) (w : World) → SameLevels b w (module_put b word v w).1
  unfolding module_put
  module_put-SameLevels word v w = put-SameLevels b l c word v.load w

  switch-SameLevels :
      (id level word : ℕ) (v : Valves) (w : World)
      → SameLevels b w (switch_valve b id level word v w).1
  unfolding switch_valve
  switch-SameLevels id level word v w =
      let r = set_valve_state b id level v w in
      either_way b w (id == 0) _ _ (module_put-SameLevels word v w)
        (chain b w (r.1) _ (set_valve_state-SameLevels b l c id level v w) (look-SameLevels id r))

  printed-SameLevels :
      (fits : Bool) (v : Valves) (w : World) → All (ValvesSame b l c w) (all_printed b fits (v, w))
  unfolding all_printed
  printed-SameLevels true v w = look_all-SameLevels n_valves (v, w)
  printed-SameLevels false v w = tt

  valve-SameLevels :
      (command : List ℕ) (id : ℕ) (v : Valves) (w : World)
      → All (ValvesSame b l c w) (valve_command b command id v w)
  unfolding valve_command
  valve-SameLevels command id v w =
      let same = same_levels b w in
      let P = ValvesSame b l c w in
      let rained = set_rain b.fpu (rain_at_eleven b.fpu command) id v in
      one_of P (matches command ((8, 59) ∷ [])) _ _
        (one_of P (id == 0) _ (some (look b id (v, w)))
          (printed-SameLevels (list_fits b.fpu v.valve) v w) (look-SameLevels id (v, w)))
        (one_of P (matches command ((8, 58) ∷ (9, 48) ∷ (10, 59) ∷ [])) _ _
          (switch-SameLevels id 0 0x0000 v w)
          (one_of P (matches command ((8, 58) ∷ (9, 49) ∷ (10, 59) ∷ [])) _ _
            (switch-SameLevels id 1 0x07ff v w)
            (one_of P (matches command ((8, 58) ∷ (9, 105) ∷ (10, 59) ∷ [])) _ _ same (
              one_of P (matches command ((8, 58) ∷ (9, 114) ∷ (10, 59) ∷ [])) _ _ same (
                one_of P (matches command ((8, 58) ∷ (9, 116) ∷ (10, 59) ∷ [])) (some (v, w)) _ same
                  (one_of P (matches command ((8, 58) ∷ (9, 116) ∷ (10, 58) ∷ (14, 59) ∷ [])) _ _
                    same
                    (one_of P (matches command ((8, 58) ∷ (9, 112) ∷ (10, 59) ∷ [])) (some (v, w)) _
                      same
                      (one_of P (matches command ((8, 58) ∷ (9, 112) ∷ (10, 58) ∷ (13, 59) ∷ [])) _
                        _ (one_of P (id == 0) _ _ tt same)
                        (one_of P (matches command ((8, 58) ∷ (9, 117) ∷ (10, 58) ∷ (14, 59) ∷ []))
                          _ _
                          (one_of P (id == 0) _ (some (rained, w))
                            (printed-SameLevels (rain_fits b.fpu rained.valve) rained w) same)
                          same)))))))))

  pub command_80-SameLevels :
      (command : List ℕ) (p : ℤ) (v : Valves) (w : World)
      → All (ValvesSame b l c w) (command_80 b command p v w)
  unfolding command_80 command_80_v
  command_80-SameLevels command p v w =
      let same = same_levels b w in
      let P = ValvesSame b l c w in
      let id = two_digits (at_place command 6) (at_place command 7) in
      one_of P (matches command ((3, 59) ∷ [])) _ _ same (
        one_of P (matches command ((3, 58) ∷ (4, 115) ∷ (5, 58) ∷ (7, 59) ∷ [])) _ _
          (either_way b w (digit_at command 6 == 0) _ _ (stop-SameLevels b l c p v w)
            (start-SameLevels b l c v w))
          (one_of P (matches command ((3, 58) ∷ (4, 100) ∷ (5, 58) ∷ (7, 59) ∷ [])) _ _ same (
            one_of P (matches command ((3, 58) ∷ (4, 102) ∷ (5, 59) ∷ [])) _ _ same (
              one_of P (matches command ((3, 58) ∷ (4, 102) ∷ (5, 58) ∷ (7, 59) ∷ [])) _ _ same (
                one_of P (matches command ((3, 58) ∷ (4, 103) ∷ (5, 58) ∷ (8, 59) ∷ [])) _ _ same (
                  one_of P (matches command ((3, 58) ∷ (4, 104) ∷ (5, 59) ∷ [])) _ _ same (
                    one_of P (matches command ((3, 58) ∷ (4, 110) ∷ (5, 59) ∷ [])) _ _ same (
                      one_of P (matches command ((3, 58) ∷ (4, 118) ∷ (5, 58) ∷ [])) _ _
                        (one_of P (leb 2147483648 id) _ _ tt
                          (one_of P (leb id n_valves) _ _ (valve-SameLevels command id v w) same))
                        same))))))))

  samples-SameLevels : (v : Valves) (w : World) → SameLevels b w (read_samples b v w).1
  unfolding read_samples Expander.i_data Expander.i_n_points
  samples-SameLevels v w i =
      c.transmit_receive_keeps i _ _ 2 _
      ∙ ask-SameLevels b l c Expander.reg_i_data (v.load.n_samples * 2) w i

  command_84-SameLevels :
      (command : List ℕ) (v : Valves) (w : World) → SameLevels b w (command_84 b command v w).1
  unfolding command_84
  command_84-SameLevels command v w =
      either_way b w (matches command ((3, 58) ∷ (8, 59) ∷ [])) _ _ (module_put-SameLevels _ v w)
        (same_levels b w)

  command_85-SameLevels :
      (command : List ℕ) (v : Valves) (w : World) → SameLevels b w (command_85 b command v w).1
  unfolding command_85 Expander.get1 Expander.get2 Expander.get
  command_85-SameLevels command v w =
      either_way b w (matches command ((3, 58) ∷ (5, 59) ∷ [])) _ _
        (either_way b w (digit_at command 4 == 0) _ _ (λ i. c.transmit_keeps i _ _ w)
          (λ i. c.receive_keeps i _ 2 w))
        (either_way b w (matches command ((3, 59) ∷ [])) _ _
          (ask-SameLevels b l c Expander.reg_get 2 w) (same_levels b w))

  command_86-SameLevels :
      (command : List ℕ) (v : Valves) (w : World) → SameLevels b w (command_86 b command v w).1
  unfolding command_86 Expander.irms Expander.set_i_n_points Expander.i_n_points Expander.i_process
      Expander.temperature Expander.uptime Expander.data_test
  command_86-SameLevels command v w =
      either_way b w (matches command ((3, 58) ∷ (4, 100) ∷ (5, 59) ∷ [])) _ _
        (samples-SameLevels v w)
        (either_way b w (matches command ((3, 58) ∷ (4, 105) ∷ (5, 59) ∷ [])) _ _
          (ask-SameLevels b l c Expander.reg_irms 2 w)
          (either_way b w (matches command ((3, 58) ∷ (4, 110) ∷ (5, 58) ∷ (9, 59) ∷ [])) _ _
            (λ i. c.transmit_keeps i _ _ w)
            (either_way b w (matches command ((3, 58) ∷ (4, 110) ∷ (5, 59) ∷ [])) _ _
              (λ i. c.transmit_receive_keeps i _ _ 2 w)
              (either_way b w (matches command ((3, 58) ∷ (4, 112) ∷ (5, 59) ∷ [])) _ _
                (λ i. c.transmit_keeps i _ _ w)
                (either_way b w (matches command ((3, 58) ∷ (4, 116) ∷ (5, 59) ∷ [])) _ _
                  (ask-SameLevels b l c Expander.reg_temperature 2 w)
                  (either_way b w (matches command ((3, 58) ∷ (4, 117) ∷ (5, 59) ∷ [])) _ _
                    (ask-SameLevels b l c Expander.reg_uptime 4 w)
                    (either_way b w (matches command ((3, 58) ∷ (4, 118) ∷ (5, 59) ∷ [])) _ _
                      (λ i. c.transmit_receive_keeps i _ _ 8 w) (same_levels b w))))))))

  pub module-SameLevels :
      (opcode : ℕ) (command : List ℕ) (v : Valves) (w : World)
      → SameLevels b w (module_command b opcode command v w).1
  unfolding module_command Expander.irms Expander.soft_reset Expander.probe
  module-SameLevels opcode command v w =
      either_way b w (opcode == 3) _ _ (ask-SameLevels b l c Expander.reg_irms 2 w) (
        either_way b w (opcode == 4) _ _ (command_84-SameLevels command v w) (
          either_way b w (opcode == 5) _ _ (command_85-SameLevels command v w) (
            either_way b w (opcode == 6) _ _ (command_86-SameLevels command v w) (
              either_way b w (opcode == 8) _ _ (λ i. c.probe_keeps i _ w)
                (either_way b w (opcode == 9) _ _ (λ i. c.transmit_keeps i _ _ w)
                  (same_levels b w))))))
