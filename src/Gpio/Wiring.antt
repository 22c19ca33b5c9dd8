-- ===== src/Gpio/Wiring.antt =====
-- The pins of the controller's board: the arrays `ac_load_` and
-- `gpio_generic_` of class Pump (main/acionna/pump.hpp) with the numbers of
-- components/helper/include/pinout.hpp. The busy wait and the I2C transfers are the parameter `lines`.
use acionna.Prelude.{
  ℕ, ◌≡◌, ◌≢◌, ◌≤◌, ◌<◌, refl, ◌∙◌, ap, Bool, true, false, not, ◌&&◌, ◌==◌, ltb, if◌then◌else◌,
  List, arith,
}
use acionna.Board.{Fpu}
use acionna.Gpio
use acionna.Gpio.{Idf, Direction, GpioDriver, read, write}

-- AC_LOAD1 to AC_LOAD3
abbrev pub load_pin : ℕ → ℕ
load_pin i = if i == 0 then 21 else if i == 1 then 18 else 5

-- GPIO_GENERIC1 to GPIO_GENERIC4
abbrev pub generic_pin : ℕ → ℕ
generic_pin i = if i == 0 then 23 else if i == 1 then 22 else if i == 2 then 19 else 33

abbrev pub ac_load : ℕ → GpioDriver
ac_load i = record { pin_number = load_pin i; direction = 1; level = 0 }

abbrev pub gpio_generic : ℕ → GpioDriver
gpio_generic i = record { pin_number = generic_pin i; direction = 0; level = 0 }

-- The int that `write` is given for a level.
abbrev pub level_of : Bool → ℕ
level_of v = if v then 1 else 0

-- What the pump's code relies on of the chip, as the manual states it: a pin has a direction, which
-- `gpio_set_direction` alone changes; a pin whose direction is input and output reads the level set
-- last, and no other pin's.
pub record IsPins (idf : Idf) : Type 1 where
  pub direction : ℕ → idf.World → Direction
  pub sets :
      (p : ℕ) (d : Direction) (w : idf.World) → direction p (idf.gpio_set_direction p d w) ≡ d
  pub sets_one :
      (p q : ℕ) (d : Direction) (w : idf.World)
      → p ≢ q
      → direction q (idf.gpio_set_direction p d w) ≡ direction q w
  pub level_keeps :
      (p q v : ℕ) (w : idf.World) → direction q (idf.gpio_set_level p v w) ≡ direction q w
  pub pull_keeps :
      (p q : ℕ) (m : Gpio.Pull) (w : idf.World)
      → direction q (idf.gpio_set_pull_mode p m w) ≡ direction q w
  pub reads_back :
      (p v : ℕ) (w : idf.World)
      → v ≤ 1
      → direction p w ≡ Direction.input_output
      → idf.gpio_get_level p (idf.gpio_set_level p v w) ≡ v
  pub apart :
      (p q v : ℕ) (w : idf.World)
      → p ≢ q
      → idf.gpio_get_level q (idf.gpio_set_level p v w) ≡ idf.gpio_get_level q w

-- The wait and the I2C transfers.
pub record Lines (W : Type 0) : Type 0 where
  pub fpu : Fpu
  pub delay_us : ℕ → W → W
  pub transmit : ℕ → List ℕ → W → W
  pub receive : ℕ → ℕ → W → List ℕ × W
  pub transmit_receive : ℕ → List ℕ → ℕ → W → List ℕ × W
  pub probe : ℕ → W → Bool × W

-- From one world to another, a pin that is an output stays one and keeps its level.
abbrev pub KeepsPin : {idf : Idf} → IsPins idf → ℕ → idf.World → idf.World → Type 0
KeepsPin {idf} h p w w' =
    (h.direction p w' ≡ h.direction p w) × (idf.gpio_get_level p w' ≡ idf.gpio_get_level p w)

-- Time and the I2C lines, the pins 0 and 4, leave the other pins alone.
pub record IsLines {idf : Idf} (h : IsPins idf) (lines : Lines (idf.World)) : Type 0 where
  pub delay_keeps :
      (p t : ℕ) (w : idf.World)
      → h.direction p w ≡ Direction.input_output
      → KeepsPin h p w (lines.delay_us t w)
  pub transmit_keeps :
      (p addr : ℕ) (bytes : List ℕ) (w : idf.World)
      → p ≢ 0
      → p ≢ 4
      → KeepsPin h p w (lines.transmit addr bytes w)
  pub receive_keeps :
      (p addr len : ℕ) (w : idf.World) → p ≢ 0 → p ≢ 4 → KeepsPin h p w (lines.receive addr len w).1
  pub transmit_receive_keeps :
      (p addr : ℕ) (bytes : List ℕ) (len : ℕ) (w : idf.World)
      → p ≢ 0
      → p ≢ 4
      → KeepsPin h p w (lines.transmit_receive addr bytes len w).1
  pub probe_keeps :
      (p addr : ℕ) (w : idf.World) → p ≢ 0 → p ≢ 4 → KeepsPin h p w (lines.probe addr w).1

pub load_pin-ne : (i : ℕ) → (load_pin i ≢ 0) × (load_pin i ≢ 4)
load_pin-ne i = (λ e. ground arith, λ e. ground arith)

load_pin-apart : (i j : ℕ) → i < 3 → j < 3 → i ≢ j → load_pin i ≢ load_pin j
load_pin-apart i j p q n = λ e. ground arith

-- The level seen at an output depends on the pin's level alone.
abbrev pub seen : ℕ → ℕ → Bool
seen i level = ltb i 3 && not (level == 0)

pub seen-same : (i a b : ℕ) → (i < 3 → a ≡ b) → seen i a ≡ seen i b
seen-same i a b f = by_test (ltb i 3) refl
  where
    by_test : (t : Bool) → ltb i 3 ≡ t → (t && not (a == 0)) ≡ (t && not (b == 0))
    by_test true e = ap (λ (x : ℕ). not (x == 0)) (f (ground (arith, e)))
    by_test false e = refl

pub seen-level_of : (i : ℕ) (v : Bool) → i < 3 → seen i (level_of v) ≡ v
seen-level_of i v q = ground arith

module _ {idf : Idf} (h : IsPins idf) where
  -- The outputs are configured.
  abbrev pub IsConfigured : idf.World → Type 0
  IsConfigured w = (i : ℕ) → i < 3 → h.direction (load_pin i) w ≡ Direction.input_output

  abbrev pub Chip : Type 0
  Chip = (w : idf.World) × IsConfigured w

  -- `ac_load_[i].write(v)`; the array has three drivers.
  abbrev pub written : ℕ → Bool → idf.World → idf.World
  written i v w = if ltb i 3 then write idf (level_of v) (ac_load i) w else w

  pub written-IsConfigured :
      (i : ℕ) (v : Bool) (w : idf.World) → IsConfigured w → IsConfigured (written i v w)
  unfolding write
  written-IsConfigured i v w c j q = either (ltb i 3)
    where
      either :
          (t : Bool)
          → h.direction
              (load_pin j)
              (if t then idf.gpio_set_level (load_pin i) (level_of v) w else w)
            ≡ Direction.input_output
      either true = h.level_keeps (load_pin i) (load_pin j) (level_of v) w ∙ c j q
      either false = c j q

  pub written_back :
      (i : ℕ) (v : Bool) (w : idf.World)
      → i < 3
      → IsConfigured w
      → idf.gpio_get_level (load_pin i) (written i v w) ≡ level_of v
  unfolding write
  written_back i v w q c = by_test (ltb i 3) (ground arith)
    where
      by_test :
          (t : Bool)
          → t ≡ true
          → idf.gpio_get_level
              (load_pin i)
              (if t then idf.gpio_set_level (load_pin i) (level_of v) w else w)
            ≡ level_of v
      by_test true e = h.reads_back (load_pin i) (level_of v) w (ground arith) (c i q)
      by_test false e = absurd (ground (arith, e))

  pub written_apart :
      (i j : ℕ) (v : Bool) (w : idf.World)
      → i ≢ j
      → j < 3
      → idf.gpio_get_level (load_pin j) (written i v w) ≡ idf.gpio_get_level (load_pin j) w
  unfolding write
  written_apart i j v w n q = by_test (ltb i 3) refl
    where
      by_test :
          (t : Bool)
          → ltb i 3 ≡ t
          → idf.gpio_get_level
              (load_pin j)
              (if t then idf.gpio_set_level (load_pin i) (level_of v) w else w)
            ≡ idf.gpio_get_level (load_pin j) w
      by_test true e =
          h.apart (load_pin i) (load_pin j) (level_of v) w
            (load_pin-apart i j (ground (arith, e)) q n)
      by_test false e = refl

  pub keeps-IsConfigured :
      (w w' : idf.World)
      → ((j : ℕ) → j < 3 → KeepsPin h (load_pin j) w w')
      → IsConfigured w
      → IsConfigured w'
  keeps-IsConfigured w w' f c j q = (f j q).0 ∙ c j q
