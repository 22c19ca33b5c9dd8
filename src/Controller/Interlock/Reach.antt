-- ===== src/Controller/Interlock/Reach.antt =====
-- The interlock in every state that the system reaches.
use acionna.Prelude.{
  ℕ, zero, suc, replicate, ◌≡◌, refl, sym, ◌∙◌, false, inl, Bool, arith, List, Option, none, some,
  ℤ,
}
use mathlib.Core.Path.{subst}
use acionna.Board.{Board, IsLatched, IsWired}
use acionna.Pump.State as PumpState
use acionna.Valves.State as ValvesState
use acionna.Valves.Wires.{All}
use acionna.Controller.State.{Acionna, no_match}
use acionna.Controller.Mode.{run_every_second}
use acionna.Controller.SetClock.{TimeSource, init_clock, take_over}
use acionna.Controller.Message.{handle_message}
use acionna.Controller.Session.{Session, Payload, msg_fetch, executed, execute, run}
use acionna.Controller.Steps.{System, Step, second, message, power_on}
use acionna.Controller.Interlock.State.{IsWell, BlindMatches}
use acionna.Controller.Interlock.Second.{run_every_second-IsWell}
use acionna.Controller.Interlock.Message.{IsAllowed, Leaves, handle_message-IsWell}

-- The command of a step, if it is a message, is allowed where it comes in.
abbrev pub Guarded : {b : Board} → Bool → {s t : System b} → Step b s t → Type 0
Guarded enters (second now p1 p2 s w r e) = Unit
Guarded enters (message m s w r e) =
    All (λ command. IsAllowed enters command s.acionna.valves) (msg_fetch m.bytes s.command_str)

-- Any number of steps, each of them guarded.
pub data Reach (b : Board) (enters : Bool) (s : System b) : System b → Type 0 where
  here : Reach b enters s s
  next :
      {t u : System b}
      → Reach b enters s t
      → (st : Step b t u) → Guarded enters st
      → Reach b enters s u

abbrev pub IsSystem : (b : Board) → Bool → System b → Type 0
IsSystem b enters s = IsWell b enters s.0.acionna s.1

all_of {ℓ} : {A : Type ℓ} (P : A → Type 0) (m : Option A) (a : A) → All P m → m ≡ some a → P a
all_of P m a h e = subst (λ x. All P x) e h

executed-IsSystem :
    (b : Board) (enters : Bool) (command : List ℕ) (m : Option (Acionna × b.World))
    → All (Leaves b enters) m
    → All (IsSystem b enters) (executed command m)
executed-IsSystem b enters command none h = tt
executed-IsSystem b enters command (some r) h = h

module _ (b : Board) (l : IsLatched b) (c : IsWired b) {enters : Bool} where
  open b use {World}

  execute-IsSystem :
      (source : TimeSource) (a : Acionna) (w : World) (m : Option (List ℕ))
      → All (λ command. IsAllowed enters command a.valves) m
      → IsWell b enters a w
      → All (IsSystem b enters) (execute b source a w m)
  execute-IsSystem source a w none k h = tt
  execute-IsSystem source a w (some command) k h =
      executed-IsSystem b enters command (handle_message b source command a w)
        (handle_message-IsWell b l c source command a w k h)

  run-IsSystem :
      (m : Payload) (s : Session) (w : World)
      → All (λ command. IsAllowed enters command s.acionna.valves) (msg_fetch m.bytes s.command_str)
      → IsSystem b enters (s, w)
      → All (IsSystem b enters) (run b (some m) s w)
  unfolding run
  run-IsSystem m s w k h =
      execute-IsSystem m.source s.acionna w (msg_fetch m.bytes s.command_str) k h

  second-IsSystem :
      (now : ℕ) (p1 p2 : ℤ) (a : Acionna) (w : World) (r : Acionna × World)
      → run_every_second b now p1 p2 a w ≡ some r
      → IsWell b enters a w
      → IsWell b enters r.0 r.1
  second-IsSystem now p1 p2 a w r e h =
      let (r', e', h') = run_every_second-IsWell b l c now p1 p2 a w h in
      all_of (Leaves b enters) (some r') r h' (sym e' ∙ e)

  Step-IsSystem :
      {s t : System b} (st : Step b s t)
      → Guarded enters st
      → IsSystem b enters s
      → IsSystem b enters t
  Step-IsSystem (second now p1 p2 s w r e) g h = second-IsSystem now p1 p2 s.acionna w r e h
  Step-IsSystem (message m s w r e) g h =
      all_of (IsSystem b enters) (run b (some m) s w) r (run-IsSystem m s w g h) e

  Reach-IsSystem : {s t : System b} → IsSystem b enters s → Reach b enters s t → IsSystem b enters t
  Reach-IsSystem h here = h
  Reach-IsSystem h (next r st g) = Step-IsSystem st g (Reach-IsSystem h r)

replicate-BlindMatches : (n : ℕ) → BlindMatches (replicate n no_match)
replicate-BlindMatches zero = tt
replicate-BlindMatches (suc n) = (refl, replicate-BlindMatches n)

-- Power on leaves the system well, but for the optimized mode, whose first events start on K2.
power_on-IsSystem :
    (b : Board)
    → IsLatched b
    → (command : List ℕ) (uptime : ℕ) (w : b.World) → IsSystem b false (power_on b command uptime w)
unfolding PumpState.init init_clock take_over ValvesState.new ValvesState.for_all
    ValvesState.set_valve_rain_mm ValvesState.calc_valve_flow
power_on-IsSystem b l command uptime w = record {
  mode = λ e. ground arith;
  pump_safe = record {
    interlocked = inl (l.apart 2 1 false _ (omega arith) ∙ l.reads_back 1 false _ (omega arith));
    sequence = refl;
  };
  sectors = record { eleven = refl; in_order = λ e. ground arith };
  schedule = record {
    matches = replicate-BlindMatches 9;
    modes = λ e. ground arith;
    nine = refl;
    bound = omega arith;
  };
}

pub Reach-returns :
    (b : Board) (l : IsLatched b) (c : IsWired b) (command : List ℕ) (uptime : ℕ) (w : b.World)
    (t : System b) (now : ℕ) (p1 p2 : ℤ)
    → Reach b false (power_on b command uptime w) t
    → (r : Acionna × b.World) × (run_every_second b now p1 p2 t.0.acionna t.1 ≡ some r)
Reach-returns b l c command uptime w t now p1 p2 r =
    let (s, e, h) =
      run_every_second-IsWell b l c now p1 p2 t.0.acionna t.1
        (Reach-IsSystem b l c (power_on-IsSystem b l command uptime w) r) in
    (s, e)
