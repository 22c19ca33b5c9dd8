-- ===== src/Controller/Optimized.antt =====
-- Acionna::handle_message (main/acionna/acionna.cpp): the commands $51 of the optimized mode. `none`
-- is a write outside `event`.
use acionna.Prelude.{
  ℕ, ◌+◌, ◌-◌, ◌*◌, ◌<◌, ◌≡◌, ap, arith, ◌==◌, if◌then◌else◌, List, [], ◌∷◌, set, Option, none,
  some, u32,
}
use acionna.Types.{disable, enable, start_type_of}
use acionna.TimeOps.{daytime_to_timesec}
use acionna.Controller.State.{Acionna, Optimized}
use acionna.Controller.Command.{at_place, digit_at, digits_from, two_digits, matches}
use acionna.Controller.CommandLaws.{two_digits_lem}

abbrev pub with_optimized : (Optimized → Optimized) → Acionna → Acionna
with_optimized f a = record a { optimized = f a.optimized }

-- HHMM from place 6 on, in seconds.
abbrev pub clock_at_six : List ℕ → ℕ
clock_at_six command = u32 (
    two_digits (at_place command 6) (at_place command 7) * 3600
    + two_digits (at_place command 8) (at_place command 9) * 60)

-- $51:e1:m3:2:120;
unfoldable pub set_event : List ℕ → Acionna → Option Acionna
set_event command a =
    let index = digit_at command 5 in
    let minutes =
      digits_from 0 (48 ∷ at_place command 12 ∷ at_place command 13 ∷ at_place command 14 ∷ []) in
    if index == 0
    then none
    else some (
        with_optimized
          (λ (o : Optimized). record o {
            event = set o.event (index - 1) (record {
              start_mode = start_type_of (digit_at command 8);
              time_to_shutdown = minutes * 60;
              cycles_n = digit_at command 10;
            });
          })
          a)

-- The `else if` chain of $51.
unfoldable pub command_51 : List ℕ → Acionna → Option Acionna
command_51 command a =
    if matches command ((3, 59) ∷ [])
    then some a
    else if matches command ((3, 58) ∷ (4, 115) ∷ (5, 58) ∷ (7, 59) ∷ [])
    then some (record a {
      flag_check_time_match_optimized = if digit_at command 6 == 0 then disable else enable;
    })
    else if matches command ((3, 58) ∷ (4, 100) ∷ (5, 59) ∷ [])
    then some a
    else if matches command ((3, 58) ∷ (4, 100) ∷ (5, 58) ∷ (8, 59) ∷ [])
    then some (
        with_optimized
          (λ (o : Optimized). record o {
            time_delay = u32 (two_digits (at_place command 6) (at_place command 7) * 60);
          })
          a)
    else if matches command ((3, 58) ∷ (4, 110) ∷ (5, 58) ∷ (7, 59) ∷ [])
    then some (
        with_optimized
          (λ (o : Optimized). record o {
            event_n = two_digits (at_place command 6) (at_place command 7);
          })
          a)
    else if matches command ((3, 58) ∷ (4, 104) ∷ (5, 58) ∷ (10, 59) ∷ [])
    then some
        (with_optimized (λ (o : Optimized). record o { time_match_start = clock_at_six command }) a)
    else if matches command ((3, 58) ∷ (4, 114) ∷ (5, 59) ∷ [])
    then some a
    else if matches command ((3, 58) ∷ (4, 114) ∷ (5, 58) ∷ (10, 59) ∷ [])
    then some (with_optimized (λ (o : Optimized). record o { time_red = clock_at_six command }) a)
    else if matches command
        ((3, 58) ∷ (4, 101) ∷ (6, 58) ∷ (7, 109) ∷ (9, 58) ∷ (11, 58) ∷ (15, 59) ∷ [])
    then set_event command a
    else some a

-- $51:h:HHMM; and $51:r:HHMM;, with the letter as an argument.
abbrev pub clock_command : ℕ → ℕ → ℕ → ℕ → ℕ → List ℕ
clock_command letter h1 h2 m1 m2 =
    36 ∷ 53 ∷ 49 ∷ 58 ∷ letter ∷ 58 ∷ (48 + h1) ∷ (48 + h2) ∷ (48 + m1) ∷ (48 + m2) ∷ 59 ∷ []

-- The commands $51:h:HHMM; and $51:r:HHMM; with digits give the start time and the red time the
-- second of the day of HH:MM, each without changing anything else.
pub command_51-clock :
    (h1 h2 m1 m2 : ℕ) (a : Acionna)
    → h1 < 10
    → h2 < 10
    → m1 < 10
    → m2 < 10
    → (command_51 (clock_command 104 h1 h2 m1 m2) a
        ≡ some (
            with_optimized
              (λ (o : Optimized). record o {
                time_match_start = daytime_to_timesec (10 * h1 + h2) (10 * m1 + m2) 0;
              })
              a))
      × (command_51 (clock_command 114 h1 h2 m1 m2) a
          ≡ some (
              with_optimized
                (λ (o : Optimized). record o {
                  time_red = daytime_to_timesec (10 * h1 + h2) (10 * m1 + m2) 0;
                })
                a))
unfolding command_51 daytime_to_timesec
command_51-clock h1 h2 m1 m2 a p q r s =
    let t : (10 * h1 + h2) * 3600 + (10 * m1 + m2) * 60
        ≡ (10 * h1 + h2) * 60 * 60 + (10 * m1 + m2) * 60 + 0 =
      omega arith in
    rw (two_digits_lem h1 h2 p q, two_digits_lem m1 m2 r s)
      (
        ap (λ k. some (with_optimized (λ (o : Optimized). record o { time_match_start = u32 k }) a))
            t,
        ap (λ k. some (with_optimized (λ (o : Optimized). record o { time_red = u32 k }) a)) t,
      )
