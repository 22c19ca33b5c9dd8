-- ===== src/Controller/Interlock/Modes.antt =====
-- The commands $50 and the start modes that the controller chooses by itself.
use acionna.Prelude.{
  ℕ, zero, suc, ◌-◌, ◌*◌, ◌+◌, ◌≡◌, refl, sym, ◌∙◌, Bool, true, false, not, ◌&&◌, ◌||◌, arith, List,
  [], ◌∷◌, map, Option, some, ◌==◌, if◌then◌else◌, get_or, set, u8, u32, Bool-cases, inl, inr,
}
use acionna.Types.{start_type_of}
use acionna.Board.{Board}
use acionna.Valves.Wires.{All, one_of}
use acionna.Controller.State.{Acionna, TimeMatch, no_match}
use acionna.Controller.Command.{
  digits_from, at_place, digit_at, two_digits, matches, change_at, change, set_auto, set_time_match,
  set_start_mode, set_shutdown, command_50,
}
use acionna.Controller.Interlock.Blind.{is_blind}
use acionna.Controller.Interlock.State.{BlindMatches, IsWell, match_mode}

-- A property of the value of a test's branch, which may use the test.
pub given :
    {A : Type 0} (P : A → Type 0) (t : Bool) (m n : Option A)
    → (t ≡ true → All P m)
    → (t ≡ false → All P n)
    → All P (if t then m else n)
given P true m n h k = h refl
given P false m n h k = k refl

-- $50:m and $51:e are to name a mode that drives neither K2 nor K3 directly.
abbrev pub leaves_modes : List ℕ → Bool
leaves_modes command =
    (not (at_place command 4 == 109) || is_blind (start_type_of (digit_at command 7)))
    && (not (at_place command 4 == 101) || is_blind (start_type_of (digit_at command 8)))

set-BlindMatches :
    (l : List TimeMatch) (i : ℕ) (m : TimeMatch)
    → is_blind m.auto_start_mode ≡ true
    → BlindMatches l
    → BlindMatches (set l i m)
set-BlindMatches [] i m e h = tt
set-BlindMatches (x ∷ xs) zero m e h = (e, h.1)
set-BlindMatches (x ∷ xs) (suc i) m e h = (h.0, set-BlindMatches xs i m e h.1)

-- A change of an entry that leaves the mode fit.
abbrev Fit : (TimeMatch → TimeMatch) → Type 0
Fit f = (m : TimeMatch) → is_blind m.auto_start_mode ≡ true → is_blind (f m).auto_start_mode ≡ true

map-BlindMatches :
    (f : TimeMatch → TimeMatch) (l : List TimeMatch)
    → Fit f
    → BlindMatches l
    → BlindMatches (map f l)
map-BlindMatches f [] k h = tt
map-BlindMatches f (x ∷ xs) k h = (k x h.0, map-BlindMatches f xs k h.1)

element-BlindMatches :
    (i : ℕ) (f : TimeMatch → TimeMatch) (l : List TimeMatch)
    → Fit f
    → BlindMatches l
    → BlindMatches (set l i (f (get_or l i no_match)))
element-BlindMatches i f l k h = set-BlindMatches l i _ (k _ (match_mode l i h)) h

module _ (b : Board) {enters : Bool} where
  open b use {World}

  entries-IsWell :
      (a : Acionna) (entries : List TimeMatch) (w : World)
      → BlindMatches entries
      → IsWell b enters a w
      → IsWell b enters (record a { time_match_list = entries }) w
  entries-IsWell a entries w m h = record {
    mode = h.mode;
    pump_safe = h.pump_safe;
    sectors = h.sectors;
    schedule = record {
      matches = m;
      modes = h.schedule.modes;
      nine = h.schedule.nine;
      bound = h.schedule.bound;
    };
  }

  change_at-IsWell :
      (index : ℕ) (f : TimeMatch → TimeMatch) (a : Acionna) (w : World)
      → Fit f
      → IsWell b enters a w
      → All (λ x. IsWell b enters x w) (change_at index f a)
  change_at-IsWell index f a w k h =
      one_of (λ x. IsWell b enters x w) (index == 0) _ _ tt
        (entries-IsWell a _ w
          (element-BlindMatches (index - 1) f a.time_match_list k h.schedule.matches) h)

  change-IsWell :
      (index : ℕ) (f : TimeMatch → TimeMatch) (a : Acionna) (w : World)
      → Fit f
      → IsWell b enters a w
      → IsWell b enters (change index f a) w
  change-IsWell index f a w k h = elim (Bool-cases (index == 0)) [
    | inl e ↦
        rw e (entries-IsWell a _ w (map-BlindMatches f a.time_match_list k h.schedule.matches) h)
    | inr e ↦ rw e (
        entries-IsWell a _ w
          (element-BlindMatches (index - 1) f a.time_match_list k h.schedule.matches) h)
  ]

  set_start_mode-IsWell :
      (command : List ℕ) (a : Acionna) (w : World)
      → is_blind (start_type_of (digit_at command 7)) ≡ true
      → IsWell b enters a w
      → IsWell b enters (set_start_mode command a) w
  unfolding set_start_mode
  set_start_mode-IsWell command a w e h = elim (Bool-cases (digit_at command 7 == 0)) [
    | inl z ↦ rw z h
    | inr z ↦ rw z (
        change-IsWell (digit_at command 5)
          (λ m. record m { auto_start_mode = start_type_of (digit_at command 7) }) a w (λ m k. e) h)
  ]

  -- With other flags and numbers.
  pub flags-IsWell :
      (a x : Acionna) (w : World)
      → x.state_mode ≡ a.state_mode
      → x.pump ≡ a.pump
      → x.valves ≡ a.valves
      → x.time_match_list ≡ a.time_match_list
      → x.optimized ≡ a.optimized
      → IsWell b enters a w
      → IsWell b enters x w
  flags-IsWell a x w s p v m o h = record {
    mode = λ e. h.mode (sym s ∙ e);
    pump_safe = rw p h.pump_safe;
    sectors = rw v h.sectors;
    schedule = rw (m, o) h.schedule;
  }

  set_time_match-IsWell :
      (command : List ℕ) (a : Acionna) (w : World)
      → IsWell b enters a w
      → All (λ x. IsWell b enters x w) (set_time_match command a)
  unfolding set_time_match
  set_time_match-IsWell command a w h =
      let hours = two_digits (at_place command 7) (at_place command 8) in
      let minutes = two_digits (at_place command 9) (at_place command 10) in
      change_at-IsWell (digit_at command 5)
        (λ m. record m { time_match = u32 (hours * 3600 + minutes * 60) }) a w (λ m k. k) h

  set_shutdown-IsWell :
      (command : List ℕ) (a : Acionna) (w : World)
      → IsWell b enters a w
      → IsWell b enters (set_shutdown command a) w
  unfolding set_shutdown
  set_shutdown-IsWell command a w h =
      let minutes =
        digits_from 0 (48 ∷ at_place command 7 ∷ at_place command 8 ∷ at_place command 9 ∷ []) in
      change-IsWell (digit_at command 5) (λ m. record m { time_to_shutdown = minutes * 60 }) a w
        (λ m k. k) h

  set_auto-IsWell :
      (command : List ℕ) (a : Acionna) (w : World)
      → IsWell b enters a w
      → IsWell b enters (set_auto command a) w
  unfolding set_auto
  set_auto-IsWell command a w h = flags-IsWell a (set_auto command a) w refl refl refl refl refl h

  pub command_50-IsWell :
      (command : List ℕ) (a : Acionna) (w : World)
      → leaves_modes command ≡ true
      → IsWell b enters a w
      → All (λ x. IsWell b enters x w) (command_50 command a)
  unfolding command_50
  command_50-IsWell command a w e h =
      let P = λ (x : Acionna). IsWell b enters x w in
      let counted = record a { time_match_n = u8 (digit_at command 6) } in
      one_of P (matches command ((3, 59) ∷ [])) _ _ h (
        one_of P (matches command ((3, 58) ∷ (4, 115) ∷ (5, 58) ∷ (7, 59) ∷ [])) _ _
          (set_auto-IsWell command a w h)
          (one_of P (matches command ((3, 58) ∷ (4, 104) ∷ (6, 58) ∷ (11, 59) ∷ [])) _ _
            (set_time_match-IsWell command a w h)
            (one_of P (matches command ((3, 58) ∷ (4, 110) ∷ (5, 58) ∷ (7, 59) ∷ [])) (some counted)
              _ (flags-IsWell a counted w refl refl refl refl refl h)
              (one_of P (matches command ((3, 58) ∷ (4, 110) ∷ (5, 59) ∷ [])) _ _ h (
                given P (matches command ((3, 58) ∷ (4, 109) ∷ (6, 58) ∷ (8, 59) ∷ [])) _ _
                  (λ k. set_start_mode-IsWell command a w (ground arith) h)
                  (λ k.
                    one_of P (matches command ((3, 58) ∷ (4, 116) ∷ (6, 58) ∷ (10, 59) ∷ []))
                      (some (set_shutdown command a)) (some a) (set_shutdown-IsWell command a w h)
                      h))))))
