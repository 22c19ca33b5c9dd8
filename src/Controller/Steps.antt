-- ===== src/Controller/Steps.antt =====
-- The tasks that call class Acionna (main/acionna/acionna.cpp): `run_every_second` and `run`, in the
-- order that seconds and messages come in.
use acionna.Prelude.{ℕ, ◌≡◌, some, ℤ, List}
use acionna.Board.{Board}
use acionna.Pump.State as PumpState
use acionna.Controller.State.{Acionna}
use acionna.Controller.State as ControllerState
use acionna.Controller.Mode.{run_every_second}
use acionna.Controller.SetClock.{init_clock}
use acionna.Controller.Session.{Session, Payload, run}

abbrev pub System : Board → Type 0
System b = Session × b.World

-- One call that accesses no array outside its bounds: a second passes, with the timer's and the
-- sensors' readings, or a message comes in. After a call that does there is no step.
pub data Step (b : Board) : System b → System b → Type 0 where
  second :
      (now : ℕ) (p1 p2 : ℤ) (s : Session) (w : b.World) (r : Acionna × b.World)
      → run_every_second b now p1 p2 s.acionna w ≡ some r
      → Step b (s, w) (record s { acionna = r.0 }, r.1)
  message :
      (m : Payload) (s : Session) (w : b.World) (r : System b)
      → run b (some m) s w ≡ some r
      → Step b (s, w) r

-- The constructors of the members and the clock's start at `uptime`; `command_str` is what `command_str_`
-- happens to hold, which nothing sets.
abbrev pub power_on : (b : Board) → List ℕ → ℕ → b.World → System b
power_on b command_str uptime w =
    let r = PumpState.init b w in
    let a = init_clock uptime (record (ControllerState.new b.fpu) { pump = r.0 }) in
    (record { command_str = command_str; acionna = a }, r.1)
