-- ===== src/Controller/Interlock/Events.antt =====
-- The commands $51 and the start modes of the optimized mode.
use acionna.Prelude.{
  ℕ, zero, suc, ◌-◌, ◌*◌, ◌≤◌, ◌≡◌, refl, ◌∙◌, Bool, true, arith, List, [], ◌∷◌, none, some, ◌==◌,
  if◌then◌else◌, set, length, length-set, u32,
}
use acionna.Types.{disable, enable, start_type_of}
use acionna.Board.{Board}
use acionna.Valves.Wires.{All, one_of}
use acionna.Controller.State.{Acionna, OptimizedEvent, Optimized}
use acionna.Controller.Command.{at_place, digit_at, two_digits, matches}
use acionna.Controller.Optimized.{clock_at_six, set_event, command_51}
use acionna.Controller.Message.{command_5}
use acionna.Controller.Interlock.Blind.{is_blind}
use acionna.Controller.Interlock.Modes.{given, leaves_modes, flags-IsWell, command_50-IsWell}
use acionna.Controller.Interlock.State.{BlindEvents, IsWell}

set-BlindEvents :
    (l : List OptimizedEvent) (i : ℕ) (x : OptimizedEvent)
    → is_blind x.start_mode ≡ true
    → BlindEvents l
    → BlindEvents (set l i x)
set-BlindEvents [] i m e h = tt
set-BlindEvents (x ∷ xs) zero m e h = (e, h.1)
set-BlindEvents (x ∷ xs) (suc i) m e h = (h.0, set-BlindEvents xs i m e h.1)

-- $51:e1:m3:2:120;
abbrev event_form : List (ℕ × ℕ)
event_form = (3, 58) ∷ (4, 101) ∷ (6, 58) ∷ (7, 109) ∷ (9, 58) ∷ (11, 58) ∷ (15, 59) ∷ []

-- The ';' after the digit ends the number that $51:n:X; sets.
single_digit : (c e : ℕ) → (e == 59) ≡ true → two_digits c e ≤ 9
single_digit c e h = ground arith

number_bound :
    (command : List ℕ)
    → matches command ((3, 58) ∷ (4, 110) ∷ (5, 58) ∷ (7, 59) ∷ []) ≡ true
    → two_digits (at_place command 6) (at_place command 7) ≤ 9
number_bound command h = single_digit (at_place command 6) (at_place command 7) (ground arith)

module _ (b : Board) {enters : Bool} where
  open b use {World}

  -- With another `optimized` whose events are as fit.
  optimized-IsWell :
      (a : Acionna) (o : Optimized) (w : World)
      → (enters ≡ true → BlindEvents o.event)
      → length o.event ≡ 9
      → o.event_n ≤ 9
      → IsWell b enters a w
      → IsWell b enters (record a { optimized = o }) w
  optimized-IsWell a o w m n k h = record {
    mode = h.mode;
    pump_safe = h.pump_safe;
    sectors = h.sectors;
    schedule = record { matches = h.schedule.matches; modes = m; nine = n; bound = k };
  }

  set_event-IsWell :
      (command : List ℕ) (a : Acionna) (w : World)
      → is_blind (start_type_of (digit_at command 8)) ≡ true
      → IsWell b enters a w
      → All (λ x. IsWell b enters x w) (set_event command a)
  unfolding set_event
  set_event-IsWell command a w e h =
      let index = digit_at command 5 in
      one_of (λ x. IsWell b enters x w) (index == 0) none _ tt
        (optimized-IsWell a _ w
          (λ t. set-BlindEvents a.optimized.event (index - 1) _ e (h.schedule.modes t))
          (length-set a.optimized.event (index - 1) _ ∙ h.schedule.nine) h.schedule.bound h)

  pub command_51-IsWell :
      (command : List ℕ) (a : Acionna) (w : World)
      → leaves_modes command ≡ true
      → IsWell b enters a w
      → All (λ x. IsWell b enters x w) (command_51 command a)
  unfolding command_51
  command_51-IsWell command a w e h =
      let P = λ (x : Acionna). IsWell b enters x w in
      let o = a.optimized in
      let other =
        λ (y : Optimized) (m : enters ≡ true → BlindEvents y.event) (n : length y.event ≡ 9)
            (k : y.event_n ≤ 9).
          optimized-IsWell a y w m n k h in
      let s = h.schedule in
      let checked = record a {
        flag_check_time_match_optimized = if digit_at command 6 == 0 then disable else enable;
      } in
      let number = two_digits (at_place command 6) (at_place command 7) in
      let delay = u32 (two_digits (at_place command 6) (at_place command 7) * 60) in
      one_of P (matches command ((3, 59) ∷ [])) (some a) _ h (
        one_of P (matches command ((3, 58) ∷ (4, 115) ∷ (5, 58) ∷ (7, 59) ∷ [])) (some checked) _
          (flags-IsWell b a checked w refl refl refl refl refl h)
          (one_of P (matches command ((3, 58) ∷ (4, 100) ∷ (5, 59) ∷ [])) (some a) _ h (
            one_of P (matches command ((3, 58) ∷ (4, 100) ∷ (5, 58) ∷ (8, 59) ∷ []))
              (some (record a { optimized = record o { time_delay = delay } })) _
              (other (record o { time_delay = delay }) s.modes s.nine s.bound)
              (given P (matches command ((3, 58) ∷ (4, 110) ∷ (5, 58) ∷ (7, 59) ∷ []))
                (some (record a { optimized = record o { event_n = number } })) _
                (λ t. other (record o { event_n = number }) s.modes s.nine (number_bound command t))
                (λ t.
                  one_of P (matches command ((3, 58) ∷ (4, 104) ∷ (5, 58) ∷ (10, 59) ∷ []))
                    (some (record a {
                      optimized = record o { time_match_start = clock_at_six command };
                    }))
                    _
                    (other (record o { time_match_start = clock_at_six command }) s.modes s.nine
                      s.bound)
                    (one_of P (matches command ((3, 58) ∷ (4, 114) ∷ (5, 59) ∷ [])) (some a) _ h (
                      one_of P (matches command ((3, 58) ∷ (4, 114) ∷ (5, 58) ∷ (10, 59) ∷ []))
                        (some
                          (record a { optimized = record o { time_red = clock_at_six command } }))
                        _
                        (other (record o { time_red = clock_at_six command }) s.modes s.nine
                          s.bound)
                        (given P (matches command event_form) (set_event command a) (some a)
                          (λ z. set_event-IsWell command a w (ground arith) h) (λ z. h)))))))))

  pub command_5-IsWell :
      (command : List ℕ) (a : Acionna) (w : World)
      → leaves_modes command ≡ true
      → IsWell b enters a w
      → All (λ x. IsWell b enters x w) (command_5 command a)
  unfolding command_5
  command_5-IsWell command a w e h =
      let P = λ (x : Acionna). IsWell b enters x w in
      one_of P (digit_at command 2 == 0) _ _ (command_50-IsWell b command a w e h) (
        one_of P (digit_at command 2 == 1) (command_51 command a) (some a)
          (command_51-IsWell command a w e h) h)
