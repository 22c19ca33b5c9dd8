-- ===== src/Controller/Interlock/Sectors.antt =====
-- The commands $8x keep the sectors' index in range, unless they turn the order while it runs.
use acionna.Prelude.{
  ℕ, zero, suc, ◌≡◌, Bool, true, false, not, ◌||◌, arith, List, [], ◌∷◌, none, some, ◌==◌, leb, ℤ,
  u8,
}
use acionna.Types.{StatesFlag, is_automatic}
use acionna.Board.{Board}
use acionna.Valves.State.{
  Valves, n_valves, set_valve_time, set_valve_pressure, add, remove, next_forced, set_valve_state,
  get_valve_state,
}
use acionna.Valves.Range.{InRange, start-InRange, stop-InRange, set_valve_state-InRange}
use acionna.Valves.Wires.{All, one_of}
use acionna.Controller.Command.{at_place, digit_at, two_digits, matches}
use acionna.Controller.Checks.{flag_at}
use acionna.Controller.Sectors.{
  all_printed, for_id, rain_at_eleven, set_rain, module_put, look, look_all, switch_valve,
  three_at_eleven, valve_command, command_80_v, command_80,
}
use acionna.Controller.Answer.{list_fits, rain_fits}
use acionna.Controller.Module.{command_84, command_85, read_samples, command_86, module_command}
use acionna.Controller.Interlock.Modes.{given}
use acionna.Controller.Interlock.Programme.{
  add-InRange, remove-InRange, time-InRange, pressure-InRange, either, for_id-InRange,
  set_rain-InRange, load-InRange,
}

-- $80:d:X; turns the order only while the sequence does not run.
abbrev pub leaves_order : List ℕ → Valves → Bool
leaves_order command v = not (at_place command 4 == 100) || not (is_automatic v.state_valves)

turned-InRange :
    (f : StatesFlag) (v : Valves)
    → is_automatic v.state_valves ≡ false
    → InRange v
    → InRange (record v { flag_inverted_sequence = f })
turned-InRange f v e i = record { eleven = i.eleven; in_order = λ a. ground arith }

module _ (b : Board) where
  open b use {World}

  look-InRange : (id : ℕ) (r : Valves × World) → InRange r.0 → InRange (look b id r).0
  unfolding get_valve_state
  look-InRange id r i = load-InRange _ (r.0) i

  look_all-InRange : (n : ℕ) (r : Valves × World) → InRange r.0 → InRange (look_all b n r).0
  unfolding look_all
  look_all-InRange zero r i = i
  look_all-InRange (suc n) r i = look-InRange (suc n) (look_all b n r) (look_all-InRange n r i)

  switch-InRange :
      (id level word : ℕ) (v : Valves) (w : World)
      → InRange v
      → InRange (switch_valve b id level word v w).0
  unfolding switch_valve module_put
  switch-InRange id level word v w i =
      either (id == 0) _ _ (load-InRange _ v i) (
        look-InRange id (set_valve_state b id level v w) (set_valve_state-InRange b id level v w i))

  abbrev Kept : Valves × World → Type 0
  Kept r = InRange r.0

  printed-InRange :
      (fits : Bool) (v : Valves) (w : World) → InRange v → All Kept (all_printed b fits (v, w))
  unfolding all_printed
  printed-InRange true v w i = look_all-InRange n_valves (v, w) i
  printed-InRange false v w i = tt

  valve-InRange :
      (command : List ℕ) (id : ℕ) (v : Valves) (w : World)
      → InRange v
      → All Kept (valve_command b command id v w)
  unfolding valve_command
  valve-InRange command id v w i =
      let P = Kept in
      let rained = set_rain b.fpu (rain_at_eleven b.fpu command) id v in
      let wet = set_rain-InRange b.fpu (rain_at_eleven b.fpu command) id v i in
      let minutes = u8 (three_at_eleven command) in
      let value = two_digits (at_place command 11) (at_place command 12) in
      one_of P (matches command ((8, 59) ∷ [])) _ _
        (one_of P (id == 0) _ (some (look b id (v, w)))
          (printed-InRange (list_fits b.fpu v.valve) v w i) (look-InRange id (v, w) i))
        (one_of P (matches command ((8, 58) ∷ (9, 48) ∷ (10, 59) ∷ [])) _ _
          (switch-InRange id 0 0x0000 v w i)
          (one_of P (matches command ((8, 58) ∷ (9, 49) ∷ (10, 59) ∷ [])) _ _
            (switch-InRange id 1 0x07ff v w i)
            (one_of P (matches command ((8, 58) ∷ (9, 105) ∷ (10, 59) ∷ []))
              (some (for_id add id v, w)) _ (for_id-InRange add id add-InRange v i)
              (one_of P (matches command ((8, 58) ∷ (9, 114) ∷ (10, 59) ∷ []))
                (some (for_id remove id v, w)) _ (for_id-InRange remove id remove-InRange v i)
                (one_of P (matches command ((8, 58) ∷ (9, 116) ∷ (10, 59) ∷ [])) (some (v, w)) _ i (
                  one_of P (matches command ((8, 58) ∷ (9, 116) ∷ (10, 58) ∷ (14, 59) ∷ []))
                    (some (for_id (λ j. set_valve_time j minutes) id v, w)) _
                    (for_id-InRange (λ j. set_valve_time j minutes) id (time-InRange minutes) v i)
                    (one_of P (matches command ((8, 58) ∷ (9, 112) ∷ (10, 59) ∷ [])) (some (v, w)) _
                      i
                      (one_of P (matches command ((8, 58) ∷ (9, 112) ∷ (10, 58) ∷ (13, 59) ∷ [])) _
                        _
                        (one_of P (id == 0) none (some (set_valve_pressure id value v, w)) tt
                          (pressure-InRange value id v i))
                        (one_of P (matches command ((8, 58) ∷ (9, 117) ∷ (10, 58) ∷ (14, 59) ∷ []))
                          _ (some (v, w))
                          (one_of P (id == 0) _ (some (rained, w))
                            (printed-InRange (rain_fits b.fpu rained.valve) rained w wet) wet)
                          i)))))))))

  pub command_80-InRange :
      (command : List ℕ) (p : ℤ) (v : Valves) (w : World)
      → leaves_order command v ≡ true
      → InRange v
      → All Kept (command_80 b command p v w)
  unfolding command_80 command_80_v next_forced
  command_80-InRange command p v w o i =
      let P = Kept in
      let id = two_digits (at_place command 6) (at_place command 7) in
      let flag = flag_at (digit_at command 6) in
      let turned = record v { flag_inverted_sequence = flag } in
      let delayed = record v { flag_valve_delay_switch = flag } in
      let timed = record v { time_delay_close_config = id } in
      let plain : InRange delayed = record { eleven = i.eleven; in_order = i.in_order } in
      let plain2 : InRange timed = record { eleven = i.eleven; in_order = i.in_order } in
      let forced : InRange (next_forced v) = record { eleven = i.eleven; in_order = i.in_order } in
      one_of P (matches command ((3, 59) ∷ [])) _ _ i (
        one_of P (matches command ((3, 58) ∷ (4, 115) ∷ (5, 58) ∷ (7, 59) ∷ [])) _ _
          (either (digit_at command 6 == 0) _ _ (stop-InRange b p v w i.eleven)
            (start-InRange b v w i.eleven))
          (given P (matches command ((3, 58) ∷ (4, 100) ∷ (5, 58) ∷ (7, 59) ∷ []))
            (some (turned, w)) _ (λ t. turned-InRange flag v (ground arith) i)
            (λ t. one_of P (matches command ((3, 58) ∷ (4, 102) ∷ (5, 59) ∷ [])) (some (v, w)) _ i (
              one_of P (matches command ((3, 58) ∷ (4, 102) ∷ (5, 58) ∷ (7, 59) ∷ []))
                (some (delayed, w)) _ plain
                (one_of P (matches command ((3, 58) ∷ (4, 103) ∷ (5, 58) ∷ (8, 59) ∷ []))
                  (some (timed, w)) _ plain2
                  (one_of P (matches command ((3, 58) ∷ (4, 104) ∷ (5, 59) ∷ [])) (some (v, w)) _ i
                    (one_of P (matches command ((3, 58) ∷ (4, 110) ∷ (5, 59) ∷ []))
                      (some (next_forced v, w)) _ forced
                      (one_of P (matches command ((3, 58) ∷ (4, 118) ∷ (5, 58) ∷ [])) _ _
                        (one_of P (leb 2147483648 id) none _ tt (
                          one_of P (leb id n_valves) _ (some (v, w))
                            (valve-InRange command id v w i) i))
                        i))))))))

  command_86-InRange :
      (command : List ℕ) (v : Valves) (w : World) → InRange v → InRange (command_86 b command v w).0
  unfolding command_86 read_samples
  command_86-InRange command v w i =
      either (matches command ((3, 58) ∷ (4, 100) ∷ (5, 59) ∷ [])) _ _ (load-InRange _ v i) (
        either (matches command ((3, 58) ∷ (4, 105) ∷ (5, 59) ∷ [])) _ _ i (
          either (matches command ((3, 58) ∷ (4, 110) ∷ (5, 58) ∷ (9, 59) ∷ [])) _ _ i (
            either (matches command ((3, 58) ∷ (4, 110) ∷ (5, 59) ∷ [])) _ _ (load-InRange _ v i) (
              either (matches command ((3, 58) ∷ (4, 112) ∷ (5, 59) ∷ [])) _ _ i (
                either (matches command ((3, 58) ∷ (4, 116) ∷ (5, 59) ∷ [])) _ _ i (
                  either (matches command ((3, 58) ∷ (4, 117) ∷ (5, 59) ∷ [])) _ _ i
                    (either (matches command ((3, 58) ∷ (4, 118) ∷ (5, 59) ∷ [])) _ _ i i)))))))

  pub module-InRange :
      (opcode : ℕ) (command : List ℕ) (v : Valves) (w : World)
      → InRange v
      → InRange (module_command b opcode command v w).0
  unfolding module_command command_84 command_85 module_put
  module-InRange opcode command v w i = either (opcode == 3) _ _ i (
      either (opcode == 4) _ _
        (either (matches command ((3, 58) ∷ (8, 59) ∷ [])) _ _ (load-InRange _ v i) i)
        (either (opcode == 5) _ _
          (either (matches command ((3, 58) ∷ (5, 59) ∷ [])) _ _
            (either (digit_at command 4 == 0) _ _ i (load-InRange _ v i))
            (either (matches command ((3, 59) ∷ [])) _ _ (load-InRange _ v i) i))
          (either (opcode == 6) _ _ (command_86-InRange command v w i)
            (either (opcode == 8) _ _ i (either (opcode == 9) _ _ i i)))))
