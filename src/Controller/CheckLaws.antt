-- ===== src/Controller/CheckLaws.antt =====
-- The two low-pressure checks of pipe 1 exclude each other.
use acionna.Prelude.{◌≡◌, refl, ◌⊎◌, inl, inr, Bool, true, false, ℕ, List, ◌==◌, if◌then◌else◌}
use acionna.Types.{StatesFlag, disable, enable}
use acionna.Controller.State.{Acionna}
use acionna.Controller.Command.{digit_at}
use acionna.Controller.Checks.{
  flag_at, sets, check_low_k1, check_low_delta, check_pressures, check_lows, command_70, command_7,
}

-- Not both checks are on.
abbrev pub OneLow : Acionna → Type 0
OneLow a = (a.flag_check_pressure_low_k1 ≡ disable) ⊎ (a.flag_check_pressure_low_delta ≡ disable)

either : (t : Bool) (x y : Acionna) → OneLow x → OneLow y → OneLow (if t then x else y)
either true x y h k = h
either false x y h k = k

k1-OneLow : (f : StatesFlag) (a : Acionna) → OneLow (check_low_k1 f a)
unfolding check_low_k1
k1-OneLow enable a = inr refl
k1-OneLow disable a = inl refl

delta-OneLow : (f : StatesFlag) (a : Acionna) → OneLow (check_low_delta f a)
unfolding check_low_delta
delta-OneLow enable a = inl refl
delta-OneLow disable a = inr refl

pressures-OneLow : (command : List ℕ) (a : Acionna) → OneLow a → OneLow (check_pressures command a)
unfolding check_pressures
pressures-OneLow command a h = either (sets command 112 104) _ _ h (
    either (sets command 112 108) _ _ h
      (either (sets command 112 118) _ _ h (either (sets command 118 99) _ _ h h)))

lows-OneLow : (command : List ℕ) (a : Acionna) → OneLow a → OneLow (check_lows command a)
unfolding check_lows
lows-OneLow command a h =
    let f = flag_at (digit_at command 7) in
    either (sets command 108 49) _ _ (k1-OneLow f a) (
      either (sets command 108 50) _ _ h
        (either (sets command 108 52) _ _ (delta-OneLow f a) (pressures-OneLow command a h)))

-- Whatever its letters and its digit, a command of the family $7x keeps the low-pressure checks for
-- K1 and for delta from being both enabled.
pub command_7-OneLow : (command : List ℕ) (a : Acionna) → OneLow a → OneLow (command_7 command a)
unfolding command_7 command_70
command_7-OneLow command a h =
    either (digit_at command 2 == 0) _ _
      (either (sets command 114 116) _ _ h (
        either (sets command 107 116) _ _ h (
          either (sets command 107 49) _ _ h (
            either (sets command 107 50) _ _ h
              (either (sets command 107 51) _ _ h (lows-OneLow command a h))))))
      h
