-- ===== src/Controller/Interlock/Tests.antt =====
-- A run of the whole controller on a concrete board, and the theorems on it.
use acionna.Prelude.{◌≡◌, refl, false, arith, [], ◌∷◌, ◌++◌, List, ℕ, replicate, some, none, pos}
use acionna.Types.{enable, StartTypes}
use acionna.Panel.{panel, panel-IsLatched, panel-IsWired, idle, Levels}
use acionna.Pump.State as PumpState
use acionna.Pump.Start as PumpStart
use acionna.Valves.Wires.{All}
use acionna.Controller.State.{Acionna}
use acionna.Controller.Frames.{parser}
use acionna.Controller.Command.{command_3}
use acionna.Controller.Mode.{run_every_second}
use acionna.Controller.Message.{handle_message}
use acionna.Controller.Session.{Payload, overlay, memcpy, msg_fetch, run}
use acionna.Controller.Steps.{System, message, power_on}
use acionna.Controller.Interlock.Message.{IsAllowed}
use acionna.Controller.Interlock.Reach.{Reach, here, next, Reach-returns}

-- "x$36;", the request of a star-delta start.
abbrev request : Payload
request = record {
  bytes = 120 ∷ 36 ∷ 51 ∷ 54 ∷ 59 ∷ [];
  source = record { uptime = 7; server_time = none };
}

-- What `command_str_` holds at power on.
abbrev garbage : List ℕ
garbage = replicate 20 0

abbrev powered : System panel
powered = power_on panel garbage 2 idle

abbrev requested : System panel
requested = (
  record {
    command_str = (36 ∷ 51 ∷ 54 ∷ 59 ∷ []) ++ replicate 16 0;
    acionna = record (powered.0.acionna) {
      pump = record (powered.0.acionna.pump) {
        flag_start_y_delta = enable;
        start_y_delta_state = StartTypes.to_y;
      };
    };
  },
  powered.1,
)

request_executed : run panel (some request) powered.0 powered.1 ≡ some requested
unfolding run msg_fetch parser memcpy overlay handle_message command_3 PumpStart.start
    PumpState.init
request_executed = refl

request-IsAllowed :
    All
      (λ command. IsAllowed false command powered.0.acionna.valves)
      (msg_fetch request.bytes powered.0.command_str)
unfolding msg_fetch parser memcpy overlay PumpState.init
request-IsAllowed = record {
  direct = λ e. refl;
  modes = λ e. refl;
  optimized = λ e f. ground arith;
  order = λ e. refl;
}

reached : Reach panel false (power_on panel garbage 2 idle) requested
reached =
    next here (message request powered.0 powered.1 requested request_executed) request-IsAllowed

-- The second in which the star connection is switched on.
star_second :
    (r : Acionna × Levels) × (run_every_second panel 1000
        (pos 40)
        (pos 0)
        requested.0.acionna
        requested.1
      ≡ some r)
star_second =
    Reach-returns panel panel-IsLatched panel-IsWired garbage 2 idle requested 1000 (pos 40) (pos 0)
      reached

abbrev in_star : System panel
in_star = (record (requested.0) { acionna = star_second.0.0 }, star_second.0.1)
