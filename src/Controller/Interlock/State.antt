-- ===== src/Controller/Interlock/State.antt =====
-- What holds of the controller and the outputs between two of its operations, and how changes that
-- do not concern it carry it over.
use acionna.Prelude.{
  ℕ, zero, suc, ◌<◌, ◌≤◌, ◌≡◌, refl, Bool, true, false, arith, List, [], ◌∷◌, ◌==◌, if◌then◌else◌,
  get_or, length,
}
use acionna.Types.{StartTypes, StopTypes, StatesMode}
use acionna.Board.{Board, IsLatched}
use acionna.Pump.State.{Pump}
use acionna.Pump.Interlock.Events.{IsSafe, stop-IsSafe}
use acionna.Valves.State.{Valves}
use acionna.Valves.Range.{InRange}
use acionna.Valves.Wires.{SameLevels}
use acionna.Controller.State.{Acionna, TimeMatch, no_match, OptimizedEvent, first_event, stop_pump}
use acionna.Controller.Schedule.{start_pump, with_shutdown}
use acionna.Controller.Interlock.Blind.{is_blind, start-IsSafe}

-- No entry of a list starts the pump on K2 or K3 directly.
abbrev pub BlindMatches : List TimeMatch → Type 0
BlindMatches [] = Unit
BlindMatches (m ∷ ms) = (is_blind m.auto_start_mode ≡ true) × BlindMatches ms

abbrev pub BlindEvents : List OptimizedEvent → Type 0
BlindEvents [] = Unit
BlindEvents (e ∷ es) = (is_blind e.start_mode ≡ true) × BlindEvents es

-- The start modes that the controller chooses by itself. `enters` says whether the optimized mode may be
-- entered: only then do its events matter.
pub record IsSchedule (enters : Bool) (entries : List TimeMatch) (events : List OptimizedEvent)
    (n : ℕ) : Type 0 where
  pub matches : BlindMatches entries
  pub modes : enters ≡ true → BlindEvents events
  pub nine : length events ≡ 9
  pub bound : n ≤ 9

pub record IsWell (b : Board) (enters : Bool) (a : Acionna) (w : b.World) : Type 0 where
  pub mode : a.state_mode ≡ StatesMode.pump_optimized_control → enters ≡ true
  pub pump_safe : IsSafe b a.pump w
  pub sectors : InRange a.valves
  pub schedule : IsSchedule enters a.time_match_list a.optimized.event a.optimized.event_n

pub match_mode :
    (l : List TimeMatch) (i : ℕ)
    → BlindMatches l
    → is_blind (get_or l i no_match).auto_start_mode ≡ true
match_mode [] i h = refl
match_mode (m ∷ ms) zero h = h.0
match_mode (m ∷ ms) (suc i) h = match_mode ms i h.1

pub event_mode :
    (l : List OptimizedEvent) (i : ℕ)
    → BlindEvents l
    → i < length l
    → is_blind (get_or l i first_event).start_mode ≡ true
event_mode [] i h k = absurd (omega arith)
event_mode (e ∷ es) zero h k = h.0
event_mode (e ∷ es) (suc i) h k = event_mode es i h.1 (omega arith)

-- Both branches of a test.
pub pick :
    (b : Board) {enters : Bool} (t : Bool) (r s : Acionna × b.World)
    → IsWell b enters r.0 r.1
    → IsWell b enters s.0 s.1
    → let x = if t then r else s in IsWell b enters x.0 x.1
pick b true r s h k = h
pick b false r s h k = k

pub levels-IsSafe :
    (b : Board) (p : Pump) (w w' : b.World) → SameLevels b w w' → IsSafe b p w → IsSafe b p w'
levels-IsSafe b p w w' s h = record {
  interlocked = rw (s 1, s 2) h.interlocked;
  sequence = h.sequence;
}

-- New valves, whose operations went over the I2C lines.
pub valves-IsWell :
    (b : Board) {enters : Bool} (a : Acionna) (v : Valves) (w w' : b.World)
    → SameLevels b w w'
    → InRange v
    → IsWell b enters a w
    → IsWell b enters (record a { valves = v }) w'
valves-IsWell b a v w w' s i h = record {
  mode = h.mode;
  pump_safe = levels-IsSafe b a.pump w w' s h.pump_safe;
  sectors = i;
  schedule = h.schedule;
}

pub shutdown-IsWell :
    (b : Board) {enters : Bool} (n : ℕ) (a : Acionna) (w : b.World)
    → IsWell b enters a w
    → IsWell b enters (with_shutdown n a) w
shutdown-IsWell b {enters} n a w h = elim_zero (n == 0)
  where
    elim_zero :
        (t : Bool)
        → IsWell b enters
            (if t then a else record a { pump = record (a.pump) { time_to_shutdown = n } })
            w
    elim_zero true = h
    elim_zero false = record {
      mode = h.mode;
      pump_safe = record { interlocked = h.pump_safe.interlocked; sequence = h.pump_safe.sequence };
      sectors = h.sectors;
      schedule = h.schedule;
    }

module _ (b : Board) (l : IsLatched b) {enters : Bool} where
  open b use {World}

  pub stop-IsWell :
      (reason : StopTypes) (a : Acionna) (w : World)
      → IsWell b enters a w
      → let r = stop_pump b reason a w in IsWell b enters r.0 r.1
  stop-IsWell reason a w h = record {
    mode = h.mode;
    pump_safe = stop-IsSafe b l reason a.epoch_time a.pump w h.pump_safe;
    sectors = h.sectors;
    schedule = h.schedule;
  }

  pub start_pump-IsWell :
      (mode : StartTypes) (a : Acionna) (w : World)
      → is_blind mode ≡ true
      → IsWell b enters a w
      → let r = start_pump b mode a w in IsWell b enters r.0 r.1
  start_pump-IsWell mode a w m h = record {
    mode = h.mode;
    pump_safe = start-IsSafe b l mode a.epoch_time a.pump w m h.pump_safe;
    sectors = h.sectors;
    schedule = h.schedule;
  }
