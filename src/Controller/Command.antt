-- ===== src/Controller/Command.antt =====
-- Acionna::handle_message (main/acionna/acionna.cpp): the commands of the families $3x (the motor),
-- $50 (the time matches) and $6x (the mode). The answers are not modelled. `none` is a write outside
-- `time_match_list`. `command` is `command_str`, whose 20 bytes the code reads at fixed places.
use acionna.Prelude.{
  ℕ, ◌+◌, ◌-◌, ◌*◌, Bool, ◌&&◌, ◌||◌, ◌==◌, leb, if◌then◌else◌, List, [], ◌∷◌, map, get_or, set,
  Option, none, some, u8, u32,
}
use acionna.Types.{
  disable, enable, StatesMode, StartTypes, direct_k1, direct_k2, direct_k3, to_delta, to_y,
  y_delta_req, StopTypes, start_type_of,
}
use acionna.Board.{Board}
use acionna.Controller.State.{Acionna, TimeMatch, no_match, stop_pump}
use acionna.Controller.Schedule.{start_pump}

abbrev pub is_digit : ℕ → Bool
is_digit c = leb 48 c && leb c 57

-- `atoi` from the first digit on.
abbrev pub digits_from : ℕ → List ℕ → ℕ
digits_from value [] = value
digits_from value (c ∷ cs) =
    let rest = digits_from (10 * value + (c - 48)) cs in if is_digit c then rest else value

-- `atoi` of two characters as the 32-bit word it is cast to: white space or a sign may come first.
abbrev pub two_digits : ℕ → ℕ → ℕ
two_digits a c =
    let last = digits_from 0 (c ∷ []) in
    if is_digit a
    then digits_from 0 (a ∷ c ∷ [])
    else if (a == 32) || (leb 9 a && leb a 13) || (a == 43)
    then last
    else if a == 45
    then u32 (4294967296 - last)
    else 0

abbrev pub at_place : List ℕ → ℕ → ℕ
at_place command i = get_or command i 0

-- `atoi` of '0' and the character at a place.
abbrev pub digit_at : List ℕ → ℕ → ℕ
digit_at command i = digits_from 0 (48 ∷ at_place command i ∷ [])

-- Whether the characters at these places are these: ':' is 58 and ';' 59.
abbrev pub matches : List ℕ → List (ℕ × ℕ) → Bool
matches command [] = Bool.true
matches command (p ∷ ps) = (at_place command p.0 == p.1) && matches command ps

-- Element `index - 1`, or outside the array.
abbrev pub change_at : ℕ → (TimeMatch → TimeMatch) → Acionna → Option Acionna
change_at index f a =
    if index == 0
    then none
    else some (record a {
      time_match_list =
          set a.time_match_list (index - 1) (f (get_or a.time_match_list (index - 1) no_match));
    })

-- Element `index - 1`, or all of them.
abbrev pub change : ℕ → (TimeMatch → TimeMatch) → Acionna → Acionna
change index f a =
    if index == 0 then record a { time_match_list = map f a.time_match_list } else record a {
      time_match_list =
          set a.time_match_list (index - 1) (f (get_or a.time_match_list (index - 1) no_match));
    }

-- $50:s:X;
unfoldable pub set_auto : List ℕ → Acionna → Acionna
set_auto command a = record a {
  flag_check_time_match = if digit_at command 6 == 0 then disable else enable;
}

-- $50:h1:2130;
unfoldable pub set_time_match : List ℕ → Acionna → Option Acionna
set_time_match command a =
    let hours = two_digits (at_place command 7) (at_place command 8) in
    let minutes = two_digits (at_place command 9) (at_place command 10) in
    change_at (digit_at command 5)
      (λ (m : TimeMatch). record m { time_match = u32 (hours * 3600 + minutes * 60) }) a

-- $50:m1:1;
unfoldable pub set_start_mode : List ℕ → Acionna → Acionna
set_start_mode command a =
    let status = digit_at command 7 in
    if status == 0
    then a
    else change (digit_at command 5)
        (λ (m : TimeMatch). record m { auto_start_mode = start_type_of status }) a

-- $50:t1:060;
unfoldable pub set_shutdown : List ℕ → Acionna → Acionna
set_shutdown command a =
    let minutes =
      digits_from 0 (48 ∷ at_place command 7 ∷ at_place command 8 ∷ at_place command 9 ∷ []) in
    change (digit_at command 5) (λ (m : TimeMatch). record m { time_to_shutdown = minutes * 60 }) a

-- The `else if` chain of $50.
unfoldable pub command_50 : List ℕ → Acionna → Option Acionna
command_50 command a =
    if matches command ((3, 59) ∷ [])
    then some a
    else if matches command ((3, 58) ∷ (4, 115) ∷ (5, 58) ∷ (7, 59) ∷ [])
    then some (set_auto command a)
    else if matches command ((3, 58) ∷ (4, 104) ∷ (6, 58) ∷ (11, 59) ∷ [])
    then set_time_match command a
    else if matches command ((3, 58) ∷ (4, 110) ∷ (5, 58) ∷ (7, 59) ∷ [])
    then some (record a { time_match_n = u8 (digit_at command 6) })
    else if matches command ((3, 58) ∷ (4, 110) ∷ (5, 59) ∷ [])
    then some a
    else if matches command ((3, 58) ∷ (4, 109) ∷ (6, 58) ∷ (8, 59) ∷ [])
    then some (set_start_mode command a)
    else if matches command ((3, 58) ∷ (4, 116) ∷ (6, 58) ∷ (10, 59) ∷ [])
    then some (set_shutdown command a)
    else some a

-- $60; to $63;
unfoldable pub command_6 : List ℕ → Acionna → Acionna
command_6 command a =
    let status = digit_at command 2 in
    if status == 0
    then record a { state_mode = StatesMode.system_off }
    else if status == 1
    then record a { state_mode = StatesMode.system_ready }
    else if status == 2
    then record a { state_mode = StatesMode.irrigation_pump_valves }
    else if status == 3
    then record a { state_mode = StatesMode.pump_optimized_control }
    else a

-- The start mode of the `case` of an opcode from 1 to 6.
abbrev pub mode_of : ℕ → StartTypes
mode_of opcode =
    if opcode == 1
    then direct_k1
    else if opcode == 2
    then direct_k2
    else if opcode == 3
    then direct_k3
    else if opcode == 4
    then to_delta
    else if opcode == 5
    then to_y
    else y_delta_req

module _ (b : Board) where
  open b use {World}

  -- $30; stops the motor, $31; to $36; start it.
  unfoldable pub command_3 : List ℕ → Acionna → World → Acionna × World
  command_3 command a w =
      let opcode = digit_at command 2 in
      if matches command ((3, 59) ∷ [])
      then if opcode == 0
        then stop_pump b StopTypes.command_line_user a w
        else if leb opcode 6
        then start_pump b (mode_of opcode) a w
        else (a, w)
      else (a, w)
