-- ===== src/Controller/Checks.antt =====
-- Acionna::handle_message (main/acionna/acionna.cpp): the commands $70, which turn the protections
-- on and off. The forms that only show a flag change nothing.
use acionna.Prelude.{ℕ, Bool, ◌==◌, if◌then◌else◌, List, [], ◌∷◌}
use acionna.Types.{StatesFlag, disable, enable}
use acionna.Controller.State.{Acionna}
use acionna.Controller.Command.{digit_at, matches}

-- `if(opcode_sub0) enable else disable`
abbrev pub flag_at : ℕ → StatesFlag
flag_at value = if value == 0 then disable else enable

-- $70:XY:d; with the letters X and Y.
abbrev pub sets : List ℕ → ℕ → ℕ → Bool
sets command x y = matches command ((3, 58) ∷ (4, x) ∷ (5, y) ∷ (6, 58) ∷ (8, 59) ∷ [])

-- $70:l1:d; and $70:l4:d; each turn the other off when they turn theirs on.
unfoldable pub check_low_k1 : StatesFlag → Acionna → Acionna
check_low_k1 enable a = record a {
  flag_check_pressure_low_k1 = enable;
  flag_check_pressure_low_delta = disable;
}
check_low_k1 disable a = record a { flag_check_pressure_low_k1 = disable }

unfoldable pub check_low_delta : StatesFlag → Acionna → Acionna
check_low_delta enable a = record a {
  flag_check_pressure_low_delta = enable;
  flag_check_pressure_low_k1 = disable;
}
check_low_delta disable a = record a { flag_check_pressure_low_delta = disable }

-- The `else if` chain of $70: ph, pl, pv and vc;
unfoldable pub check_pressures : List ℕ → Acionna → Acionna
check_pressures command a =
    let flag = flag_at (digit_at command 7) in
    if sets command 112 104
    then record a { flag_check_pressure_high = flag }
    else if sets command 112 108
    then record a { flag_check_pressure_low = flag }
    else if sets command 112 118
    then record a { flag_check_pressure_valve = flag }
    else if sets command 118 99
    then record a { flag_check_valves = flag }
    else a

-- before them l1, l2 and l4;
unfoldable pub check_lows : List ℕ → Acionna → Acionna
check_lows command a =
    let flag = flag_at (digit_at command 7) in
    if sets command 108 49
    then check_low_k1 flag a
    else if sets command 108 50
    then record a { flag_check_pressure_low_k2 = flag }
    else if sets command 108 52
    then check_low_delta flag a
    else check_pressures command a

-- and first rt, kt, k1, k2 and k3.
unfoldable pub command_70 : List ℕ → Acionna → Acionna
command_70 command a =
    let flag = flag_at (digit_at command 7) in
    if sets command 114 116
    then record a { flag_check_thermal_relay = flag }
    else if sets command 107 116
    then record a { pump = record (a.pump) { flag_check_output_pin_only = flag } }
    else if sets command 107 49
    then record a { flag_check_k1 = flag }
    else if sets command 107 50
    then record a { flag_check_k2 = flag }
    else if sets command 107 51
    then record a { flag_check_k3 = flag }
    else check_lows command a

-- $70: every other opcode of the family is not implemented.
unfoldable pub command_7 : List ℕ → Acionna → Acionna
command_7 command a = if digit_at command 2 == 0 then command_70 command a else a
