-- ===== src/Controller/Settings.antt =====
-- Acionna::handle_message (main/acionna/acionna.cpp): the commands $00, $02, $03 and $07, which set
-- times and pressures. The forms that only show a value change nothing. $03:p1 and $03:p2 set the
-- sensor's range, which is not part of the pipe's model.
use acionna.Prelude.{
  ℕ, ◌+◌, ◌-◌, ◌*◌, ◌&&◌, ◌||◌, ◌==◌, leb, if◌then◌else◌, List, [], ◌∷◌, ℤ, pos, negsuc, sub_ℕ, u32,
  Bool,
}
use acionna.Types.{disable, enable}
use acionna.Pump.State.{Pump}
use acionna.Controller.State.{Acionna}
use acionna.Controller.Command.{at_place, digits_from, digit_at, matches}

abbrev pub is_space : ℕ → Bool
is_space c = (c == 32) || (leb 9 c && leb c 13)

-- `atoi` of a string: white space, a sign, digits.
abbrev pub atoi : List ℕ → ℤ
atoi [] = pos 0
atoi (c ∷ cs) =
    let rest = atoi cs in
    if is_space c
    then rest
    else if c == 43
    then pos (digits_from 0 cs)
    else if c == 45
    then sub_ℕ 0 (digits_from 0 cs)
    else pos (digits_from 0 (c ∷ cs))

-- The cast to `unsigned int` of an `int`.
abbrev pub word_of : ℤ → ℕ
word_of (pos n) = u32 n
word_of (negsuc n) = u32 (4294967295 - n)

-- `atoi` of the two characters from a place on.
abbrev pub int_at : List ℕ → ℕ → ℤ
int_at command i = atoi (at_place command i ∷ at_place command (i + 1) ∷ [])

-- `atoi` of '0' and the three characters from place 6 on, in seconds for minutes.
abbrev pub minutes_at_six : List ℕ → ℕ
minutes_at_six command =
    digits_from 0 (48 ∷ at_place command 6 ∷ at_place command 7 ∷ at_place command 8 ∷ []) * 60

abbrev pub with_pump : (Pump → Pump) → Acionna → Acionna
with_pump f a = record a { pump = f a.pump }

-- $00:0; and $00:1;
unfoldable pub command_00 : List ℕ → Acionna → Acionna
command_00 command a =
    let status = digit_at command 4 in
    if matches command ((3, 59) ∷ [])
    then a
    else if matches command ((3, 58) ∷ (5, 59) ∷ [])
    then (if status == 1
        then record a { flag_json_data_back = enable }
        else if status == 0
        then record a { flag_json_data_back = disable }
        else a)
    else a

-- $02:w; $02:w:100; $02:s:100; $02:f:010;
unfoldable pub command_02 : List ℕ → Acionna → Acionna
command_02 command a =
    let seconds = minutes_at_six command in
    if matches command ((3, 59) ∷ [])
    then a
    else if matches command ((3, 58) ∷ (4, 119) ∷ (5, 59) ∷ [])
    then with_pump (λ (p : Pump). record p { time_wait_power_on = 0 }) a
    else if matches command ((3, 58) ∷ (4, 119) ∷ (5, 58) ∷ (9, 59) ∷ [])
    then with_pump (λ (p : Pump). record p { time_wait_power_on_config = seconds }) a
    else if matches command ((3, 58) ∷ (4, 115) ∷ (5, 58) ∷ (9, 59) ∷ [])
    then with_pump (λ (p : Pump). record p { time_to_shutdown_config = seconds }) a
    else if matches command ((3, 58) ∷ (4, 102) ∷ (5, 58) ∷ (9, 59) ∷ [])
    then with_pump (λ (p : Pump). record p { time_to_shutdown = seconds }) a
    else a

-- $03:t:0900;
abbrev pub four_at_six : List ℕ → ℕ
four_at_six command =
    word_of (
      atoi (at_place command 6 ∷ at_place command 7 ∷ at_place command 8 ∷ at_place command 9 ∷ []))

-- $03:s1:72; $03:s2:72; $03:m:3; $03:t:0900;
unfoldable pub command_03 : List ℕ → Acionna → Acionna
command_03 command a =
    if matches command ((3, 59) ∷ [])
    then a
    else if matches command ((3, 58) ∷ (4, 115) ∷ (5, 49) ∷ (6, 58) ∷ (9, 59) ∷ [])
    then record a { pipe1 = record (a.pipe1) { pressure_max = int_at command 7 } }
    else if matches command ((3, 58) ∷ (4, 115) ∷ (5, 50) ∷ (6, 58) ∷ (9, 59) ∷ [])
    then record a { pipe2 = record (a.pipe2) { pressure_max = int_at command 7 } }
    else if matches command ((3, 58) ∷ (4, 109) ∷ (5, 58) ∷ (7, 59) ∷ [])
    then with_pump (λ (p : Pump). record p { time_delta_to_y_switch_config = digit_at command 6 }) a
    else if matches command ((3, 58) ∷ (4, 116) ∷ (5, 58) ∷ (10, 59) ∷ [])
    then with_pump (λ (p : Pump). record p { time_switch_k_change = four_at_six command }) a
    else a

-- $07:l1:10; $07:l2:10;
unfoldable pub command_07 : List ℕ → Acionna → Acionna
command_07 command a =
    if matches command ((3, 59) ∷ [])
    then a
    else if matches command ((3, 58) ∷ (4, 108) ∷ (5, 49) ∷ (6, 58) ∷ (9, 59) ∷ [])
    then record a { pipe1 = record (a.pipe1) { air_detect_pressure_low_ref = int_at command 7 } }
    else if matches command ((3, 58) ∷ (4, 108) ∷ (5, 50) ∷ (6, 58) ∷ (9, 59) ∷ [])
    then record a { pipe2 = record (a.pipe2) { air_detect_pressure_low_ref = int_at command 7 } }
    else a

-- The `switch` of the family $0x.
unfoldable pub command_0 : List ℕ → Acionna → Acionna
command_0 command a =
    let opcode = digit_at command 2 in
    if opcode == 0
    then command_00 command a
    else if opcode == 2
    then command_02 command a
    else if opcode == 3
    then command_03 command a
    else if opcode == 7
    then command_07 command a
    else a
