-- ===== src/Aht10.antt =====
-- Class aht10 (components/modules/aht10/aht10.cpp): a sensor of humidity and temperature on the I2C
-- lines. `delay_ms`, a wait of the operating system, is a parameter. The transfers' status is
-- dropped, as the source drops it; the lines that are printed are not modelled.
pub mod Laws
mod Tests
use acionna.Prelude.{
  ℕ, ◌*◌, ◌/◌, ◌^◌, Bool, not, List, [], ◌∷◌, ◌==◌, ltb, if◌then◌else◌, bit_and, bit_or, get_or,
  replicate, pos,
}
use acionna.Board.{Board, Fpu}

pub data Mode : Type 0 where
  normal cycle command calibrate_only a8 : Mode

pub record Aht10 : Type 0 where
  pub status_byte : ℕ
  pub data_raw : List ℕ
  pub first_init : ℕ

abbrev pub addr : ℕ
addr = 0x38

abbrev pub reg_init : ℕ
reg_init = 0xe1

abbrev pub reg_trig_meas : ℕ
reg_trig_meas = 0xac

abbrev pub reg_soft_rst : ℕ
reg_soft_rst = 0xba

abbrev pub reg_read_status : ℕ
reg_read_status = 0x71

abbrev pub start_meas_ctrl : ℕ
start_meas_ctrl = 0x33

-- `data_cmd_mode` of the `switch`.
abbrev pub init_byte : Mode → ℕ
init_byte Mode.normal = 0x08
init_byte Mode.cycle = 0x28
init_byte Mode.command = 0x48
init_byte Mode.calibrate_only = 0x08
init_byte Mode.a8 = 0xa8

abbrev pub byte : ℕ → Aht10 → ℕ
byte i x = get_or x.data_raw i 0

-- The 20 bits of the humidity.
unfoldable pub raw_humidity : Aht10 → ℕ
raw_humidity x = bit_or (bit_or (byte 1 x * 2 ^ 8) (byte 2 x) * 2 ^ 4) (byte 3 x / 2 ^ 4)

-- The 20 bits of the temperature.
unfoldable pub raw_temperature : Aht10 → ℕ
raw_temperature x = bit_or (bit_or (bit_and (byte 3 x) 15 * 2 ^ 8) (byte 4 x) * 2 ^ 8) (byte 5 x)

-- if (humidity > 0x100000) {humidity = 0x100000;}
unfoldable pub limited : ℕ → ℕ
limited n = if ltb 0x100000 n then 0x100000 else n

module _ (f : Fpu) where
  open f use {float_of, mul, div, sub}

  -- humidity(), in percent.
  unfoldable pub humidity : Aht10 → ℕ
  humidity x =
      mul (div (float_of (pos (limited (raw_humidity x)))) (float_of (pos 0x100000)))
        (float_of (pos 100))

  -- temperature(), in degrees.
  unfoldable pub temperature : Aht10 → ℕ
  temperature x =
      sub
        (mul (div (float_of (pos (raw_temperature x))) (float_of (pos 0x100000)))
          (float_of (pos 200)))
        (float_of (pos 50))

module _ (b : Board) (delay_ms : ℕ → b.World → b.World) where
  open b use {World, transmit, receive, transmit_receive}

  unfoldable pub soft_reset : World → World
  soft_reset w = delay_ms 20 (transmit addr (reg_soft_rst ∷ []) w)

  unfoldable pub init : Mode → Aht10 → World → Aht10 × World
  init mode x w =
      let w1 = if x.first_init == 0 then w else soft_reset (delay_ms 40 w) in
      (
        record x { first_init = 0 },
        transmit addr (reg_init ∷ init_byte mode ∷ 0 ∷ []) (delay_ms 10 w1),
      )

  unfoldable pub probe : World → Bool × World
  probe w = b.probe addr (delay_ms 10 w)

  unfoldable pub read_status_register : Aht10 → World → Aht10 × World
  read_status_register x w =
      let r = transmit_receive addr (reg_read_status ∷ []) 1 (delay_ms 10 w) in
      (record x { status_byte = get_or r.0 0 0 }, r.1)

  -- Six bytes, 75 ms after the command.
  unfoldable pub trig_meas : Aht10 → World → Aht10 × World
  trig_meas x w =
      let w1 = transmit addr (reg_trig_meas ∷ start_meas_ctrl ∷ 0 ∷ []) (delay_ms 10 w) in
      let r = receive addr 6 (delay_ms 75 w1) in
      (record x { data_raw = r.0; status_byte = get_or r.0 0 0 }, r.1)

  -- status_byte_ & (1 << bit_select), after another read of the byte or not.
  unfoldable pub get_status_bit : ℕ → Bool → Aht10 → World → Bool × Aht10 × World
  get_status_bit bit_select new_read x w =
      let r = if new_read then read_status_register x w else (x, w) in
      (not (bit_and (r.0.status_byte) (2 ^ bit_select) == 0), r.0, r.1)
