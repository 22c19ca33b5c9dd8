-- ===== src/Controller/Interlock/Settings.antt =====
-- The commands $0x, $1x and $70 change settings: none of them touches the outputs, the sectors, the
-- mode, the start modes or the star-delta sequence. $6x changes the mode.
use acionna.Prelude.{
  ℕ, ◌≡◌, ◌≢◌, arith, refl, sym, ◌∙◌, Bool, true, false, List, [], ◌∷◌, Option, none, some, ◌==◌,
  if◌then◌else◌,
}
use acionna.Types.{StatesMode, StatesFlag, disable, enable}
use acionna.Board.{Board}
use acionna.Controller.State.{Acionna}
use acionna.Controller.Command.{digit_at, matches, command_6}
use acionna.Controller.Settings.{command_00, command_02, command_03, command_07, command_0}
use acionna.Controller.Checks.{
  flag_at, sets, check_low_k1, check_low_delta, check_pressures, check_lows, command_70, command_7,
}
use acionna.Controller.SetClock.{
  TimeSource, set_clock_time, set_clock_date, set_clock_server, take_over, command_1,
}
use acionna.Controller.Interlock.State.{IsWell}

-- The parts of the state that the interlock depends on are the same.
abbrev Untouched : Acionna → Acionna → Type 0
Untouched a x =
    (x.pump.start_y_delta_state ≡ a.pump.start_y_delta_state)
    × (x.valves ≡ a.valves)
    × (x.time_match_list ≡ a.time_match_list)
    × (x.optimized ≡ a.optimized)
    × (x.state_mode ≡ a.state_mode)

same : (a : Acionna) → Untouched a a
same a = (refl, refl, refl, refl, refl)

either :
    (a : Acionna) (t : Bool) (x y : Acionna)
    → Untouched a x
    → Untouched a y
    → Untouched a (if t then x else y)
either a true x y h k = h
either a false x y h k = k

command_00-Untouched : (command : List ℕ) (a : Acionna) → Untouched a (command_00 command a)
unfolding command_00
command_00-Untouched command a =
    let s = same a in
    let status = digit_at command 4 in
    either a (matches command ((3, 59) ∷ [])) _ _ s (
      either a (matches command ((3, 58) ∷ (5, 59) ∷ [])) _ _
        (either a (status == 1) _ _ (refl, refl, refl, refl, refl)
          (either a (status == 0) _ _ (refl, refl, refl, refl, refl) s))
        s)

command_02-Untouched : (command : List ℕ) (a : Acionna) → Untouched a (command_02 command a)
unfolding command_02
command_02-Untouched command a =
    let s = same a in
    either a (matches command ((3, 59) ∷ [])) _ _ s (
      either a (matches command ((3, 58) ∷ (4, 119) ∷ (5, 59) ∷ [])) _ _
        (refl, refl, refl, refl, refl)
        (either a (matches command ((3, 58) ∷ (4, 119) ∷ (5, 58) ∷ (9, 59) ∷ [])) _ _
          (refl, refl, refl, refl, refl)
          (either a (matches command ((3, 58) ∷ (4, 115) ∷ (5, 58) ∷ (9, 59) ∷ [])) _ _
            (refl, refl, refl, refl, refl)
            (either a (matches command ((3, 58) ∷ (4, 102) ∷ (5, 58) ∷ (9, 59) ∷ [])) _ _
              (refl, refl, refl, refl, refl) s))))

command_03-Untouched : (command : List ℕ) (a : Acionna) → Untouched a (command_03 command a)
unfolding command_03
command_03-Untouched command a =
    let s = same a in
    either a (matches command ((3, 59) ∷ [])) _ _ s (
      either a (matches command ((3, 58) ∷ (4, 115) ∷ (5, 49) ∷ (6, 58) ∷ (9, 59) ∷ [])) _ _
        (refl, refl, refl, refl, refl)
        (either a (matches command ((3, 58) ∷ (4, 115) ∷ (5, 50) ∷ (6, 58) ∷ (9, 59) ∷ [])) _ _
          (refl, refl, refl, refl, refl)
          (either a (matches command ((3, 58) ∷ (4, 109) ∷ (5, 58) ∷ (7, 59) ∷ [])) _ _
            (refl, refl, refl, refl, refl)
            (either a (matches command ((3, 58) ∷ (4, 116) ∷ (5, 58) ∷ (10, 59) ∷ [])) _ _
              (refl, refl, refl, refl, refl) s))))

command_07-Untouched : (command : List ℕ) (a : Acionna) → Untouched a (command_07 command a)
unfolding command_07
command_07-Untouched command a =
    let s = same a in
    either a (matches command ((3, 59) ∷ [])) _ _ s (
      either a (matches command ((3, 58) ∷ (4, 108) ∷ (5, 49) ∷ (6, 58) ∷ (9, 59) ∷ [])) _ _
        (refl, refl, refl, refl, refl)
        (either a (matches command ((3, 58) ∷ (4, 108) ∷ (5, 50) ∷ (6, 58) ∷ (9, 59) ∷ [])) _ _
          (refl, refl, refl, refl, refl) s))

command_0-Untouched : (command : List ℕ) (a : Acionna) → Untouched a (command_0 command a)
unfolding command_0
command_0-Untouched command a =
    let opcode = digit_at command 2 in
    either a (opcode == 0) _ _ (command_00-Untouched command a) (
      either a (opcode == 2) _ _ (command_02-Untouched command a) (
        either a (opcode == 3) _ _ (command_03-Untouched command a)
          (either a (opcode == 7) _ _ (command_07-Untouched command a) (same a))))

server-Untouched :
    (ut : Option ℕ) (uptime : ℕ) (a : Acionna) → Untouched a (set_clock_server ut uptime a)
unfolding set_clock_server take_over
server-Untouched none uptime a = same a
server-Untouched (some ut) uptime a = (refl, refl, refl, refl, refl)

command_1-Untouched :
    (source : TimeSource) (command : List ℕ) (a : Acionna)
    → Untouched a (command_1 source command a)
unfolding command_1 set_clock_time set_clock_date take_over
command_1-Untouched source command a =
    either a (matches command ((3, 58) ∷ (4, 104) ∷ (5, 58) ∷ (12, 59) ∷ [])) _ _
      (refl, refl, refl, refl, refl)
      (either a (matches command ((3, 58) ∷ (4, 100) ∷ (5, 58) ∷ (14, 59) ∷ [])) _ _
        (refl, refl, refl, refl, refl)
        (either a (matches command ((3, 58) ∷ (4, 110) ∷ (5, 59) ∷ [])) _ _
          (server-Untouched source.server_time source.uptime a) (same a)))

low_k1-Untouched : (f : StatesFlag) (a : Acionna) → Untouched a (check_low_k1 f a)
unfolding check_low_k1
low_k1-Untouched enable a = (refl, refl, refl, refl, refl)
low_k1-Untouched disable a = (refl, refl, refl, refl, refl)

low_delta-Untouched : (f : StatesFlag) (a : Acionna) → Untouched a (check_low_delta f a)
unfolding check_low_delta
low_delta-Untouched enable a = (refl, refl, refl, refl, refl)
low_delta-Untouched disable a = (refl, refl, refl, refl, refl)

check_pressures-Untouched :
    (command : List ℕ) (a : Acionna) → Untouched a (check_pressures command a)
unfolding check_pressures
check_pressures-Untouched command a =
    either a (sets command 112 104) _ _ (refl, refl, refl, refl, refl)
      (either a (sets command 112 108) _ _ (refl, refl, refl, refl, refl)
        (either a (sets command 112 118) _ _ (refl, refl, refl, refl, refl)
          (either a (sets command 118 99) _ _ (refl, refl, refl, refl, refl) (same a))))

check_lows-Untouched : (command : List ℕ) (a : Acionna) → Untouched a (check_lows command a)
unfolding check_lows
check_lows-Untouched command a =
    let f = flag_at (digit_at command 7) in
    either a (sets command 108 49) _ _ (low_k1-Untouched f a) (
      either a (sets command 108 50) _ _ (refl, refl, refl, refl, refl)
        (either a (sets command 108 52) _ _ (low_delta-Untouched f a)
          (check_pressures-Untouched command a)))

command_70-Untouched : (command : List ℕ) (a : Acionna) → Untouched a (command_70 command a)
unfolding command_70
command_70-Untouched command a =
    either a (sets command 114 116) _ _ (refl, refl, refl, refl, refl)
      (either a (sets command 107 116) _ _ (refl, refl, refl, refl, refl)
        (either a (sets command 107 49) _ _ (refl, refl, refl, refl, refl)
          (either a (sets command 107 50) _ _ (refl, refl, refl, refl, refl)
            (either a (sets command 107 51) _ _ (refl, refl, refl, refl, refl)
              (check_lows-Untouched command a)))))

command_7-Untouched : (command : List ℕ) (a : Acionna) → Untouched a (command_7 command a)
unfolding command_7
command_7-Untouched command a =
    either a (digit_at command 2 == 0) _ _ (command_70-Untouched command a) (same a)

module _ (b : Board) {enters : Bool} where
  Untouched-IsWell :
      (a x : Acionna) (w : b.World) → Untouched a x → IsWell b enters a w → IsWell b enters x w
  Untouched-IsWell a x w u h = record {
    mode = λ e. h.mode (sym u.4 ∙ e);
    pump_safe = record {
      interlocked = h.pump_safe.interlocked;
      sequence = rw u.0 h.pump_safe.sequence;
    };
    sectors = rw u.1 h.sectors;
    schedule = rw (u.2, u.3) h.schedule;
  }

  entered :
      (a : Acionna) (m : StatesMode) (w : b.World)
      → (m ≡ StatesMode.pump_optimized_control → enters ≡ true)
      → IsWell b enters a w
      → IsWell b enters (record a { state_mode = m }) w
  entered a m w k h = record {
    mode = k;
    pump_safe = h.pump_safe;
    sectors = h.sectors;
    schedule = h.schedule;
  }

  -- The three families at once.
  pub settings-IsWell :
      (command : List ℕ) (source : TimeSource) (a : Acionna) (w : b.World)
      → IsWell b enters a w
      → IsWell b enters (command_0 command a) w
        × IsWell b enters (command_1 source command a) w
        × IsWell b enters (command_7 command a) w
  settings-IsWell command source a w h = (
    Untouched-IsWell a _ w (command_0-Untouched command a) h,
    Untouched-IsWell a _ w (command_1-Untouched source command a) h,
    Untouched-IsWell a _ w (command_7-Untouched command a) h,
  )

  pick_mode :
      (t : Bool) (x y : Acionna) (w : b.World)
      → (t ≡ true → IsWell b enters x w)
      → (t ≡ false → IsWell b enters y w)
      → IsWell b enters (if t then x else y) w
  pick_mode true x y w h k = h refl
  pick_mode false x y w h k = k refl

  -- $63; is not given where the optimized mode is not to be entered.
  pub command_6-IsWell :
      (command : List ℕ) (a : Acionna) (w : b.World)
      → ((digit_at command 2 == 3) ≡ true → enters ≡ true)
      → IsWell b enters a w
      → IsWell b enters (command_6 command a) w
  unfolding command_6
  command_6-IsWell command a w o h =
      let status = digit_at command 2 in
      let apart = λ (m : StatesMode) (n : m ≢ StatesMode.pump_optimized_control).
        entered a m w (λ e. absurd (n e)) h in
      pick_mode (status == 0) _ _ w (λ _. apart StatesMode.system_off (λ e. ground arith))
        (λ _.
          pick_mode (status == 1) _ _ w (λ _. apart StatesMode.system_ready (λ e. ground arith))
            (λ _.
              pick_mode (status == 2) _ _ w
                (λ _. apart StatesMode.irrigation_pump_valves (λ e. ground arith))
                (λ _.
                  pick_mode (status == 3) _ _ w
                    (λ t. entered a StatesMode.pump_optimized_control w (λ e. o t) h) (λ _. h))))
