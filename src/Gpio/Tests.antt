-- ===== src/Gpio/Tests.antt =====
-- A concrete chip: its pins' directions and levels. The interrupt service is a count of its handlers.
use acionna.Prelude.{
  ℕ, ◌≡◌, refl, false, ◌==◌, if◌then◌else◌, arith, List, [], ◌∷◌, ◌++◌, replicate, some, none, pos,
}
use acionna.Types.{enable, StartTypes}
use acionna.Board.{Board, IsLatched, IsWired}
use acionna.Panel.{thousandth_fpu}
use acionna.Pump.State as PumpState
use acionna.Pump.Start as PumpStart
use acionna.Valves.Wires.{All}
use acionna.Gpio.{Idf, Direction, GpioDriver, unregister_interrupt}
use acionna.Gpio.Wiring.{IsPins, Lines, IsLines}
use acionna.Gpio.Wired.{board_of, board_of-IsLatched, board_of-IsWired}
use acionna.Gpio.Created.{chip_created}
use acionna.Gpio.Laws.{Request, register, unregister, serve_all, unregister_never_uninstalls}
use acionna.Controller.State.{Acionna}
use acionna.Controller.Frames.{parser}
use acionna.Controller.Command.{command_3}
use acionna.Controller.Mode.{run_every_second}
use acionna.Controller.Message.{handle_message}
use acionna.Controller.Session.{Payload, overlay, memcpy, msg_fetch, run}
use acionna.Controller.Steps.{System, message, power_on}
use acionna.Controller.Interlock.Message.{IsAllowed}
use acionna.Controller.Interlock.Reach.{Reach, here, next, Reach-returns}

record Pins : Type 0 where
  directions : ℕ → Direction
  levels : ℕ → ℕ

abbrev set_direction : ℕ → Direction → Pins → Pins
set_direction p d w = record w { directions = λ q. if p == q then d else w.directions q }

abbrev set_level : ℕ → ℕ → Pins → Pins
set_level p v w = record w { levels = λ q. if p == q then v else w.levels q }

abbrev chip : Idf
chip = record {
  World = Pins;
  gpio_set_direction = set_direction;
  gpio_set_pull_mode = λ p m w. w;
  gpio_get_level = λ p w. w.levels p;
  gpio_set_level = set_level;
  gpio_reset_pin = λ p w. w;
  gpio_iomux_out = λ p f w. w;
  gpio_set_drive_capability = λ p c w. w;
  gpio_hold = λ p h w. w;
  gpio_deep_sleep_hold = λ h w. w;
  gpio_install_isr_service = λ w. w;
  gpio_uninstall_isr_service = λ w. w;
  gpio_isr_handler_add = λ p w. w;
  gpio_isr_handler_remove = λ p w. w;
  gpio_set_intr_type = λ p t w. w;
  gpio_intr_enable = λ p w. w;
  gpio_intr_disable = λ p w. w;
}

abbrev lines : Lines Pins
lines = record {
  fpu = thousandth_fpu;
  delay_us = λ t w. w;
  transmit = λ a s w. w;
  receive = λ a n w. ([], w);
  transmit_receive = λ a s n w. ([], w);
  probe = λ a w. (false, w);
}

abbrev chip-IsPins : IsPins chip
chip-IsPins = record {
  direction = λ p w. w.directions p;
  sets = λ p d w. ground arith;
  sets_one = λ p q d w n. ground arith;
  level_keeps = λ p q v w. refl;
  pull_keeps = λ p q m w. refl;
  reads_back = λ p v w h d. ground arith;
  apart = λ p q v w n. ground arith;
}

abbrev lines-IsLines : IsLines chip-IsPins lines
lines-IsLines = record {
  delay_keeps = λ p t w d. (refl, refl);
  transmit_keeps = λ p a s w n m. (refl, refl);
  receive_keeps = λ p a l w n m. (refl, refl);
  transmit_receive_keeps = λ p a s l w n m. (refl, refl);
  probe_keeps = λ p a w n m. (refl, refl);
}

abbrev floating_pins : Pins
floating_pins = record { directions = λ p. Direction.input; levels = λ p. 1 }

abbrev wired : Board
wired = board_of chip-IsPins lines lines-IsLines

abbrev wired-IsLatched : IsLatched wired
wired-IsLatched = board_of-IsLatched chip-IsPins lines lines-IsLines

abbrev wired-IsWired : IsWired wired
wired-IsWired = board_of-IsWired chip-IsPins lines lines-IsLines

-- What `command_str_` holds at power on.
abbrev garbage : List ℕ
garbage = replicate 20 0

abbrev started : System wired
started = power_on wired garbage 2 (chip_created chip-IsPins floating_pins)

-- "$36;", the request of a star-delta start.
abbrev request : Payload
request = record {
  bytes = 36 ∷ 51 ∷ 54 ∷ 59 ∷ [];
  source = record { uptime = 7; server_time = none };
}

abbrev requested : System wired
requested = (
  record {
    command_str = (36 ∷ 51 ∷ 54 ∷ 59 ∷ []) ++ replicate 16 0;
    acionna = record (started.0.acionna) {
      pump = record (started.0.acionna.pump) {
        flag_start_y_delta = enable;
        start_y_delta_state = StartTypes.to_y;
      };
    };
  },
  started.1,
)

request_executed : run wired (some request) started.0 started.1 ≡ some requested
unfolding run msg_fetch parser memcpy overlay handle_message command_3 PumpStart.start
    PumpState.init
request_executed = refl

request-IsAllowed :
    All
      (λ command. IsAllowed false command started.0.acionna.valves)
      (msg_fetch request.bytes started.0.command_str)
unfolding msg_fetch parser memcpy overlay PumpState.init
request-IsAllowed = record {
  direct = λ e. refl;
  modes = λ e. refl;
  optimized = λ e f. ground arith;
  order = λ e. refl;
}

reached : Reach wired false started requested
reached =
    next here (message request started.0 started.1 requested request_executed) request-IsAllowed

-- The second in which the star connection is switched on.
star_second :
    (r : Acionna × wired.World) × (run_every_second wired 1000
        (pos 40)
        (pos 0)
        requested.0.acionna
        requested.1
      ≡ some r)
star_second =
    Reach-returns wired wired-IsLatched wired-IsWired garbage 2
      (chip_created chip-IsPins floating_pins) requested 1000 (pos 40) (pos 0) reached

abbrev in_star : System wired
in_star = (record (requested.0) { acionna = star_second.0.0 }, star_second.0.1)

abbrev led : GpioDriver
led = record { pin_number = 2; direction = 1; level = 0 }

abbrev led_on : Pins
led_on = record { directions = λ p. Direction.input_output; levels = λ p. 1 }

-- A second driver.
abbrev key : GpioDriver
key = record { pin_number = 4; direction = 0; level = 0 }

-- Both register, and one of them goes.
abbrev requests : List Request
requests = unregister led ∷ register key ∷ register led ∷ []

unregister_never_uninstalls_example :
    let r = serve_all chip requests 0 led_on in
    unregister_interrupt chip key r.0 r.1
    ≡ (0, if r.0 == 0 then r.1 else chip.gpio_intr_disable 4 (chip.gpio_isr_handler_remove 4 r.1))
unregister_never_uninstalls_example = unregister_never_uninstalls chip requests key led_on
