-- ===== src/Board.antt =====
-- The board as the controller's classes see it: the pins of components/peripherals/gpio, whose
-- driver hands them to the ESP-IDF, the busy wait of components/helper/delay.cpp, and the I2C
-- transfers of components/peripherals/i2c/i2c_driver.cpp. The ESP-IDF is not part of the
-- repository, so the board is a parameter of the model, and with it the chip's arithmetic of `float`
-- and `double`.
use acionna.Prelude.{ℕ, ◌<◌, Bool, List, ◌≡◌, ◌≢◌, ℤ}

-- Values of `float` and `double` by their bits.
pub record Fpu : Type 0 where
  -- The literal n / 10^k, a `double`.
  pub literal : ℤ → ℕ → ℕ
  -- An `int` as a `float`.
  pub float_of : ℤ → ℕ
  pub float_to_double : ℕ → ℕ
  pub double_to_float : ℕ → ℕ
  -- How many characters %.1f prints of a `float`.
  pub width : ℕ → ℕ
  -- A `double` as a `uint32_t`.
  pub u32_of : ℕ → ℕ
  -- The operations on `float`.
  pub sub : ℕ → ℕ → ℕ
  pub mul : ℕ → ℕ → ℕ
  pub div : ℕ → ℕ → ℕ
  -- The operations on `double`.
  pub add_double : ℕ → ℕ → ℕ
  pub mul_double : ℕ → ℕ → ℕ
  pub div_double : ℕ → ℕ → ℕ
  pub pow : ℕ → ℕ → ℕ

pub record Board : Type 1 where
  pub fpu : Fpu
  -- Everything outside the program: pins, contactors, valves, time.
  pub World : Type 0
  -- `gpio_get_level` of the output pin of `ac_load_[i]`.
  pub load_level : ℕ → World → Bool
  -- `gpio_set_level` of the output pin of `ac_load_[i]`.
  pub load_write : ℕ → Bool → World → World
  -- `gpio_get_level` of the input pin of `gpio_generic_[i]`.
  pub input_level : ℕ → World → Bool
  -- Time passes: microseconds.
  pub delay_us : ℕ → World → World
  -- `i2c_master_transmit` of some bytes to an address.
  pub transmit : ℕ → List ℕ → World → World
  -- `i2c_master_receive`: what the `len` bytes of the buffer hold afterwards.
  pub receive : ℕ → ℕ → World → List ℕ × World
  -- `i2c_master_transmit_receive`: both in one transfer.
  pub transmit_receive : ℕ → List ℕ → ℕ → World → List ℕ × World
  -- `i2c_master_probe`: whether a module answers to its address.
  pub probe : ℕ → World → Bool × World

-- What the code relies on: each of the three output pins reads back the level that was last written to it, and
-- neither another pin's write nor the passing of time changes it.
pub record IsLatched (b : Board) : Type 0 where
  pub reads_back :
      (i : ℕ) (v : Bool) (w : b.World) → i < 3 → b.load_level i (b.load_write i v w) ≡ v
  pub apart :
      (i j : ℕ) (v : Bool) (w : b.World)
      → i ≢ j
      → b.load_level j (b.load_write i v w) ≡ b.load_level j w
  pub keeps : (i t : ℕ) (w : b.World) → b.load_level i (b.delay_us t w) ≡ b.load_level i w

-- The I2C lines are other pins than the outputs: a transfer leaves the outputs' levels alone.
pub record IsWired (b : Board) : Type 0 where
  pub transmit_keeps :
      (i addr : ℕ) (bytes : List ℕ) (w : b.World)
      → b.load_level i (b.transmit addr bytes w) ≡ b.load_level i w
  pub receive_keeps :
      (i addr len : ℕ) (w : b.World) → b.load_level i (b.receive addr len w).1 ≡ b.load_level i w
  pub transmit_receive_keeps :
      (i addr : ℕ) (bytes : List ℕ) (len : ℕ) (w : b.World)
      → b.load_level i (b.transmit_receive addr bytes len w).1 ≡ b.load_level i w
  pub probe_keeps :
      (i addr : ℕ) (w : b.World) → b.load_level i (b.probe addr w).1 ≡ b.load_level i w
