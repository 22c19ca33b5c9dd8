-- ===== src/Controller/Sectors.antt =====
-- Acionna::handle_message (main/acionna/acionna.cpp): the commands $80, the irrigation sectors.
-- `pressure` is the value that the sectors' pressure pointer shows. A result of `none` is a
-- write outside an array or an id below 0. What an answer shows is not modelled, so a read of
-- `valve_[-1]` that only feeds an answer leaves the state as it is; the lines of an answer are, where
-- they may be longer than the array that they are printed into (Controller/Answer).
use acionna.Prelude.{
  ℕ, zero, suc, Bool, ◌==◌, leb, if◌then◌else◌, List, [], ◌∷◌, Option, none, some, ℤ, u8,
}
use acionna.Board.{Board, Fpu}
use acionna.Expander
use acionna.Valves.Flow.{tenths_of}
use acionna.Valves.State.{
  Valves, n_valves, set_valve_state, get_valve_state, for_all, set_valve_time, set_valve_pressure,
  set_valve_rain_mm, calc_time_by_rain_mm, add, remove, next_forced,
}
use acionna.Valves.Sequence as ValvesSequence
use acionna.Controller.Command.{at_place, digits_from, digit_at, two_digits, matches}
use acionna.Controller.Settings.{atoi}
use acionna.Controller.Checks.{flag_at}
use acionna.Controller.Answer.{list_fits, rain_fits}

-- The sector `id`, or all of them for an id of 0.
abbrev pub for_id : (ℕ → Valves → Valves) → ℕ → Valves → Valves
for_id f id v = if id == 0 then for_all f n_valves v else f id v

-- `atoi` of '0' and the three characters from place 11 on.
abbrev pub three_at_eleven : List ℕ → ℕ
three_at_eleven command =
    digits_from 0 (48 ∷ at_place command 11 ∷ at_place command 12 ∷ at_place command 13 ∷ [])

-- The rain in mm of the three characters from place 11 on.
unfoldable pub rain_at_eleven : Fpu → List ℕ → ℕ
rain_at_eleven f command =
    tenths_of f (atoi (at_place command 11 ∷ at_place command 12 ∷ at_place command 13 ∷ []))

-- The rain, and the time for it, of the sector `id`, or of all of them for an id of 0.
unfoldable pub set_rain : Fpu → ℕ → ℕ → Valves → Valves
set_rain f r_mm id v = for_id (calc_time_by_rain_mm f) id (for_id (set_valve_rain_mm r_mm) id v)

module _ (b : Board) where
  open b use {World}

  abbrev pub Result : Type 0
  Result = Option (Valves × World)

  -- valves1_.module_put(word)
  unfoldable pub module_put : ℕ → Valves → World → Valves × World
  module_put word v w = let r = Expander.put b word v.load w in (record v { load = r.0 }, r.1)

  -- The answers that show whether a sector is on read it from the module.
  abbrev pub look : ℕ → Valves × World → Valves × World
  look id r = let s = get_valve_state b id (r.0) (r.1) in (s.1, s.2)

  -- for(int i=1; i<=n; i++) ... get_valve_state(i) ...
  unfoldable pub look_all : ℕ → Valves × World → Valves × World
  look_all zero r = r
  look_all (suc n) r = look (suc n) (look_all n r)

  -- The lines of all sectors, each with its output read from the module, if they fit.
  unfoldable pub all_printed : Bool → Valves × World → Result
  all_printed fits r = if fits then some (look_all n_valves r) else none

  -- $80:v:01:0; and $80:v:01:1;
  unfoldable pub switch_valve : ℕ → ℕ → ℕ → Valves → World → Valves × World
  switch_valve id level word v w =
      if id == 0 then module_put word v w else look id (set_valve_state b id level v w)

  -- $80:v:NN with an id of 0 to 11.
  unfoldable pub valve_command : List ℕ → ℕ → Valves → World → Result
  valve_command command id v w =
      if matches command ((8, 59) ∷ [])
      then (if id == 0 then all_printed (list_fits b.fpu v.valve) (v, w) else some (look id (v, w)))
      else if matches command ((8, 58) ∷ (9, 48) ∷ (10, 59) ∷ [])
      then some (switch_valve id 0 0x0000 v w)
      else if matches command ((8, 58) ∷ (9, 49) ∷ (10, 59) ∷ [])
      then some (switch_valve id 1 0x07ff v w)
      else if matches command ((8, 58) ∷ (9, 105) ∷ (10, 59) ∷ [])
      then some (for_id add id v, w)
      else if matches command ((8, 58) ∷ (9, 114) ∷ (10, 59) ∷ [])
      then some (for_id remove id v, w)
      else if matches command ((8, 58) ∷ (9, 116) ∷ (10, 59) ∷ [])
      then some (v, w)
      else if matches command ((8, 58) ∷ (9, 116) ∷ (10, 58) ∷ (14, 59) ∷ [])
      then some (for_id (λ (i : ℕ). set_valve_time i (u8 (three_at_eleven command))) id v, w)
      else if matches command ((8, 58) ∷ (9, 112) ∷ (10, 59) ∷ [])
      then some (v, w)
      else if matches command ((8, 58) ∷ (9, 112) ∷ (10, 58) ∷ (13, 59) ∷ [])
      then (if id == 0
          then none
          else some
              (set_valve_pressure id (two_digits (at_place command 11) (at_place command 12)) v, w))
      else if matches command ((8, 58) ∷ (9, 117) ∷ (10, 58) ∷ (14, 59) ∷ [])
      then (let rained = set_rain b.fpu (rain_at_eleven b.fpu command) id v in
          if id == 0
          then all_printed (rain_fits b.fpu rained.valve) (rained, w)
          else some (rained, w))
      else some (v, w)

  -- `if (valve_id <= n_valves)`: the comparison is one of `int`, which a negative id passes.
  unfoldable pub command_80_v : List ℕ → Valves → World → Result
  command_80_v command v w =
      let id = two_digits (at_place command 6) (at_place command 7) in
      if leb 2147483648 id
      then none
      else if leb id n_valves
      then valve_command command id v w
      else some (v, w)

  -- The `else if` chain of $80.
  unfoldable pub command_80 : List ℕ → ℤ → Valves → World → Result
  command_80 command pressure v w =
      let status = digit_at command 6 in
      if matches command ((3, 59) ∷ [])
      then some (v, w)
      else if matches command ((3, 58) ∷ (4, 115) ∷ (5, 58) ∷ (7, 59) ∷ [])
      then some
          (if status == 0 then ValvesSequence.stop b pressure v w else ValvesSequence.start b v w)
      else if matches command ((3, 58) ∷ (4, 100) ∷ (5, 58) ∷ (7, 59) ∷ [])
      then some (record v { flag_inverted_sequence = flag_at status }, w)
      else if matches command ((3, 58) ∷ (4, 102) ∷ (5, 59) ∷ [])
      then some (v, w)
      else if matches command ((3, 58) ∷ (4, 102) ∷ (5, 58) ∷ (7, 59) ∷ [])
      then some (record v { flag_valve_delay_switch = flag_at status }, w)
      else if matches command ((3, 58) ∷ (4, 103) ∷ (5, 58) ∷ (8, 59) ∷ [])
      then some (
        record v { time_delay_close_config = two_digits (at_place command 6) (at_place command 7) },
        w,
      )
      else if matches command ((3, 58) ∷ (4, 104) ∷ (5, 59) ∷ [])
      then some (v, w)
      else if matches command ((3, 58) ∷ (4, 110) ∷ (5, 59) ∷ [])
      then some (next_forced v, w)
      else if matches command ((3, 58) ∷ (4, 118) ∷ (5, 58) ∷ [])
      then command_80_v command v w
      else some (v, w)
