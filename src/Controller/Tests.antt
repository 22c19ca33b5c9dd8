-- ===== src/Controller/Tests.antt =====
-- Runs of the controller on a concrete board, and its theorems at concrete inputs.
use acionna.Prelude.{
  List, inl, ℕ, ltb, ◌≡◌, refl, Bool, false, arith, [], ◌∷◌, ◌++◌, some, none, get_or, ◌+◌,
  if◌then◌else◌, replicate, length, ◌%◌, ◌==◌,
}
use acionna.Types.{StatesMode, StatesMotor}
use acionna.Panel.{panel, panel-IsLatched, idle, Levels}
use acionna.Pump.Levels.{AllLow}
use acionna.Controller.State.{Acionna, new}
use acionna.Controller.StopCheck.{operation_pump_stop_check}
use acionna.Controller.Schedule.{search, searching}
use acionna.Controller.Mode.{operation_mode}
use acionna.Controller.Shutdown.{stop_check-timeout, operation_mode-off}
use acionna.Controller.Search.{search_ends}
use acionna.Clock
use acionna.Clock.{leap_year, set_day, set_month, set_year}
use acionna.Clock.Clockin
use acionna.Clock.Clockin.{Clockin}
use acionna.Clock.Keeping.{IsKept, second_of_day}
use acionna.Controller.SetClock.{take_over, set_clock_date}
use acionna.Controller.DayClock.{ticks, ticks-take_over}
use acionna.TimeOps.{daytime_to_timesec}
use acionna.Pump.Interlock.{Interlocked}
use acionna.Controller.Command.{command_3, command_50, command_6}
use acionna.Controller.CommandLaws.{
  set_time_command, with_time, command_3-Interlocked, command_50-time_match,
}
use acionna.Controller.Frames.{frame, overrun, parser, parser-frame}
use acionna.Controller.Message.{handle_message}
use acionna.Controller.Session.{Session, Payload, msg_fetch, run}
use acionna.Controller.SessionLaws.{run-replays, msg_fetch-places}
use acionna.Controller.Checks.{command_7}
use acionna.Controller.CheckLaws.{OneLow, command_7-OneLow}
use acionna.Controller.Module.{command_84, command_85}
use acionna.Controller.ModuleLaws.{put_command, get_command, command_85-command_84}
use acionna.Expander.Store.{module_board, module_board-AnswersPut}
use acionna.Valves.State.{Valves}
use acionna.Valves.State as ValvesState

abbrev fresh : Acionna
fresh = new panel.fpu

-- In delta, with no time left.
abbrev in_delta : Acionna
in_delta = record fresh {
  state_mode = StatesMode.system_off;
  pump = record (fresh.pump) { state_motor = StatesMotor.on_nominal_delta };
}

abbrev if_not_k3 : ℕ → Bool
if_not_k3 i = ltb i 2

abbrev delta_levels : Levels
delta_levels = record idle { outputs = λ i. if_not_k3 i; contacts = λ i. if_not_k3 i }

stop_check-timeout_example : AllLow panel (operation_pump_stop_check panel in_delta delta_levels).1
stop_check-timeout_example =
    stop_check-timeout panel panel-IsLatched in_delta delta_levels refl refl refl

operation_mode-off_example : AllLow panel (operation_mode panel in_delta delta_levels).1
operation_mode-off_example =
    operation_mode-off panel panel-IsLatched in_delta delta_levels refl refl

search_ends_example : searching (search panel 2 fresh idle).0 ≡ false
search_ends_example = search_ends panel 2 fresh idle (omega arith)

-- A second before midnight.
abbrev late_clock : Clockin
late_clock = record {
  dt = record (Clock.new) { year = 2024; month = 2; day = 28; hour = 23; minute = 59; second = 59 };
  time_offset = 0;
  unix_time = 0;
}

late_clock-IsKept : IsKept late_clock.dt
unfolding leap_year
late_clock-IsKept = record {
  is_date = record {
    month_low = omega arith;
    month_high = omega arith;
    day_low = omega arith;
    day_high = omega arith;
    hour_high = omega arith;
    minute_high = omega arith;
    second_high = omega arith;
  };
  low = omega arith;
  high = omega arith;
  fuse = omega arith;
}

-- The second of the seconds after is 5 late.
abbrev shown_late : ℕ → ℕ
shown_late k = if k == 1 then 101 else 100 + k + 5

ticks-take_over_example :
    let r = ticks shown_late 2 (take_over 100 late_clock fresh) in
    (r.time_day_sec + 5) % 86400 ≡ second_of_day r.dt.dt
ticks-take_over_example =
    ticks-take_over shown_late 100 1 5 late_clock fresh refl late_clock-IsKept refl (omega arith)
      (omega arith)

-- "$10:d:31032024;" on the 28th of February leaves the 29th of March, since 2024 is a leap year.
abbrev set_date_command : List ℕ
set_date_command = 36 ∷ 49 ∷ 48 ∷ 58 ∷ 100 ∷ 58 ∷ 51 ∷ 49 ∷ 48 ∷ 51 ∷ 50 ∷ 48 ∷ 50 ∷ 52 ∷ 59 ∷ []

old_month_limits :
    let d = (set_clock_date set_date_command 100 (record fresh { dt = late_clock })).dt.dt in
    (d.month ≡ 3) × (d.day ≡ 29)
unfolding set_clock_date Clockin.day Clockin.month Clockin.year set_day set_month set_year leap_year
    Clockin.update
old_month_limits = (refl, refl)

-- "ok $60;x"
parser-frame_example :
    parser ((111 ∷ 107 ∷ 32 ∷ []) ++ (36 ∷ ((54 ∷ 48 ∷ []) ++ (59 ∷ (120 ∷ []))))) none
    ≡ frame (36 ∷ ((54 ∷ 48 ∷ []) ++ (59 ∷ [])))
parser-frame_example =
    parser-frame (111 ∷ 107 ∷ 32 ∷ []) (54 ∷ 48 ∷ []) (120 ∷ [])
      (omega arith, (omega arith, (omega arith, tt)))
      (omega arith, omega arith, (omega arith, omega arith, tt))

-- A frame of 21 bytes.
parser_overruns : parser (36 ∷ (replicate 19 48 ++ (59 ∷ []))) none ≡ overrun
unfolding parser
parser_overruns = refl

-- $34;
abbrev to_delta_command : List ℕ
to_delta_command = 36 ∷ 51 ∷ 52 ∷ 59 ∷ []

command_3-Interlocked_example : Interlocked panel (command_3 panel to_delta_command fresh idle).1
command_3-Interlocked_example =
    command_3-Interlocked panel panel-IsLatched to_delta_command fresh idle refl
      (inl refl, inl refl) (inl refl)

-- $50:h2:2130;
command_50-time_match_example :
    command_50 (set_time_command 2 2 1 3 0) fresh
    ≡ some (with_time 1 (daytime_to_timesec 21 30 0) fresh)
command_50-time_match_example =
    command_50-time_match 2 2 1 3 0 fresh (omega arith) (omega arith) (omega arith) (omega arith)
      (omega arith) (omega arith)

-- "$61;" was executed, then "no" comes in.
abbrev ready : Session
ready = record { command_str = 36 ∷ 54 ∷ 49 ∷ 59 ∷ []; acionna = fresh }

abbrev no : Payload
no = record { bytes = 110 ∷ 111 ∷ []; source = record { uptime = 7; server_time = none } }

run-replays_example :
    run panel (some no) ready idle
    ≡ some (record ready { acionna = record fresh { state_mode = StatesMode.system_ready } }, idle)
unfolding handle_message command_6
run-replays_example =
    run-replays panel no ready idle (record fresh { state_mode = StatesMode.system_ready }, idle)
      (omega arith, (omega arith, tt)) (omega arith) refl

-- "$50:n:3;" and zeros
abbrev command_before : List ℕ
command_before = (36 ∷ 53 ∷ 48 ∷ 58 ∷ 110 ∷ 58 ∷ 51 ∷ 59 ∷ []) ++ replicate 12 0

-- "$60;" over it: the 3 stays.
msg_fetch-places_example :
    (r : List ℕ) × (msg_fetch ([] ++ (36 ∷ ((54 ∷ 48 ∷ []) ++ (59 ∷ [])))) command_before ≡ some r)
    × (length r ≡ 20)
    × (get_or r 6 0 ≡ 51)
msg_fetch-places_example =
    msg_fetch-places [] (54 ∷ 48 ∷ []) [] command_before 6 tt
      (omega arith, omega arith, (omega arith, omega arith, tt)) (omega arith) refl

-- $70:l1:1;
abbrev enable_l1 : List ℕ
enable_l1 = 36 ∷ 55 ∷ 48 ∷ 58 ∷ 108 ∷ 49 ∷ 58 ∷ 49 ∷ 59 ∷ []

command_7-OneLow_example : OneLow (command_7 enable_l1 fresh)
command_7-OneLow_example = command_7-OneLow enable_l1 fresh (inl refl)

-- $84:04F3; and $85;
command_85-command_84_example :
    let r = command_84 module_board (put_command 0 4 15 3) (ValvesState.new module_board.fpu) [] in
    (command_85 module_board get_command r.0 r.1).0.load.output ≡ 1267
command_85-command_84_example =
    command_85-command_84 module_board module_board-AnswersPut 0 4 15 3
      (ValvesState.new module_board.fpu) [] (omega arith) (omega arith) (omega arith) (omega arith)
