-- ===== src/Dht.antt =====
-- Class DHT (components/modules/dht/dht.cpp): the sensor of humidity and temperature, which answers
-- with the lengths of 40 pulses on one pin. The waits and the numbers of the pin's modes, which the
-- ESP-IDF defines, are parameters. The DHT11 forms of the two readings add a hundredth of a byte as a
-- `double` and cut the sum off to an integer: 0.01 times 100 or 200 is exact there, so the integer is
-- the one of the quotient by 100. An `int` count of microseconds stays below 256.
pub mod Laws
mod Tests
use acionna.Prelude.{
  ℕ, zero, suc, ◌+◌, ◌-◌, ◌*◌, ◌/◌, Bool, true, false, ◌||◌, ◌==◌, ltb, if◌then◌else◌, List, [],
  ◌∷◌, get_or, set, Option, none, some, ℤ, pos, negsuc, pos_part, ltb_ℤ, sub_ℕ, bit_and, bit_or, u8,
}
use acionna.Gpio.{Idf, GpioDriver}
use acionna.Gpio as Pin

-- GPIO_MODE_INPUT, GPIO_MODE_OUTPUT, GPIO_MODE_INPUT_OUTPUT and GPIO_PULLUP_ONLY as numbers.
pub record Modes : Type 0 where
  pub gpio_mode_input : ℕ
  pub gpio_mode_output : ℕ
  pub gpio_mode_input_output : ℕ
  pub gpio_pullup_only : ℕ

pub record Dht : Type 0 where
  pub gpio : GpioDriver
  pub raw : List ℕ

abbrev pub no_data : List ℕ
no_data = 0 ∷ 0 ∷ 0 ∷ 0 ∷ 0 ∷ []

abbrev pub Cycle : Type 0
Cycle = ℕ × ℕ

-- The bytes of `_data` as they are.
abbrev pub byte : ℕ → Dht → ℕ
byte i d = get_or d.raw i 0

unfoldable pub check_sum : Dht → Bool
check_sum d = byte 0 d + byte 1 d + byte 2 d + byte 3 d == byte 4 d

-- _data[i/8] <<= 1, and the new bit.
abbrev pub shift_in : ℕ → Bool → List ℕ → List ℕ
shift_in i high bytes =
    set bytes (i / 8) (bit_or (u8 (get_or bytes (i / 8) 0 * 2)) (if high then 1 else 0))

-- The loop over the measured cycles, from the cycle i on. A pulse that was missed ends it.
unfoldable pub decode : List Cycle → ℕ → List ℕ → Bool × List ℕ
decode [] i bytes = (true, bytes)
decode ((low, high) ∷ cycles) i bytes =
    let rest = decode cycles (i + 1) (shift_in i (ltb low high) bytes) in
    if (low == 0) || (high == 0) then (false, bytes) else rest

-- (_data[2] & 0x7F) << 8 | _data[3], with the sign of the highest bit.
unfoldable pub get_temp_celsius : ℕ → Dht → ℤ
get_temp_celsius sensor_dht11 d =
    let tenths = bit_or (bit_and (byte 2 d) 127 * 256) (byte 3 d) in
    let degrees = bit_and (byte 2 d) 127 + byte 3 d / 100 in
    let size = if sensor_dht11 == 0 then tenths else degrees in
    if bit_and 128 (byte 2 d) == 0 then pos size else sub_ℕ 0 size

unfoldable pub get_humidity : ℕ → Dht → ℕ
get_humidity sensor_dht11 d =
    if sensor_dht11 == 0 then bit_or (byte 0 d * 256) (byte 1 d) else byte 0 d + byte 1 d / 100

module _ (idf : Idf) (modes : Modes) (delay_us delay_ms : ℕ → idf.World → idf.World) where
  open idf use {World}
  open modes use {gpio_mode_input, gpio_mode_output, gpio_mode_input_output, gpio_pullup_only}

  -- while(_gpio->read() == pulse), from the count i on. The members of the pin that its methods note are not read.
  unfoldable pub wait_pulse : ℕ → ℕ → ℕ → ℕ → GpioDriver → World → ℕ × World
  wait_pulse pulse us zero i g w = (0, w)
  wait_pulse pulse us (suc fuel) i g w =
      let rest = wait_pulse pulse us fuel (i + 1) g (delay_us 1 w) in
      if (Pin.read idf g w).1 == pulse then (if ltb us i then (0, w) else rest) else (u8 i, w)

  -- waitPulse(pulse), with the default of 80 microseconds.
  abbrev pub wait_80 : ℕ → GpioDriver → World → ℕ × World
  wait_80 pulse g w = wait_pulse pulse 80 82 0 g w

  -- The loop that measures n cycles.
  unfoldable pub measure : ℕ → GpioDriver → World → List Cycle × World
  measure zero g w = ([], w)
  measure (suc n) g w =
      let low = wait_80 0 g w in
      let high = wait_80 1 g low.1 in
      let rest = measure n g high.1 in ((low.0, high.0) ∷ rest.0, rest.1)

  -- The start signal of `read`.
  abbrev pub request : GpioDriver → World → World
  request g w =
      let w1 = (Pin.mode idf gpio_mode_output g w).1 in
      let w2 = delay_ms 250 (Pin.write idf 1 g w1) in
      let w3 = delay_ms 20 (Pin.write idf 0 g w2) in
      let w4 = Pin.pull idf gpio_pullup_only g (Pin.write idf 1 g w3) in
      delay_us 40 (Pin.mode idf gpio_mode_input g w4).1

  -- What `read` makes of the cycles.
  abbrev pub decoded : Dht → List Cycle → Dht × Bool
  decoded d cycles =
      let r = decode cycles 0 no_data in
      let d' = record d { raw = r.1 } in (d', if r.0 then check_sum d' else false)

  unfoldable pub read : Dht → World → (Dht × Bool) × World
  read d w =
      let g = d.gpio in
      let low = wait_80 0 g (request g w) in
      let high = wait_80 1 g low.1 in
      let cycles = measure 40 g high.1 in
      let cleared = record d { raw = no_data } in
      if low.0 == 0
      then ((cleared, false), low.1)
      else if high.0 == 0
      then ((cleared, false), high.1)
      else (decoded d cycles.0, cycles.1)

  unfoldable pub begin : Dht → World → World
  begin d w =
      let g = d.gpio in
      let w1 = (Pin.mode idf gpio_mode_input_output g w).1 in
      let w2 = delay_ms 50 (Pin.write idf 1 g w1) in
      let w3 = delay_ms 20 (Pin.write idf 0 g w2) in
      let w4 = delay_ms 1 (Pin.write idf 1 g w3) in
      Pin.pull idf gpio_pullup_only g (Pin.mode idf gpio_mode_input g w4).1

  unfoldable pub set_high : Dht → World → World
  set_high d w = Pin.write idf 1 d.gpio (Pin.mode idf gpio_mode_output d.gpio w).1

  unfoldable pub set_low : Dht → World → World
  set_low d w = Pin.write idf 0 d.gpio (Pin.mode idf gpio_mode_output d.gpio w).1

  -- One of the two loops of `count_pulse_us`; `none` where it gives up.
  unfoldable pub wait_level : ℕ → ℕ → ℕ → ℕ → GpioDriver → World → Option ℕ × World
  wait_level level timeout zero i g w = (none, w)
  wait_level level timeout (suc fuel) i g w =
      let rest = wait_level level timeout fuel (i + 1) g (delay_us 1 w) in
      if (Pin.read idf g w).1 == level
      then (if ltb timeout i then (none, w) else rest)
      else (some i, w)

  -- From the edge on, if the pulse is waited for.
  abbrev pub count_pulse : ℕ → ℕ → GpioDriver → World → ℤ × World
  count_pulse pulse timeout g w =
      let r = wait_level pulse timeout (timeout + 2) 0 g w in
      (elim r.0 [ none ↦ pos 0 | some i ↦ pos i ], r.1)

  unfoldable pub count_pulse_us : ℕ → ℕ → ℕ → GpioDriver → World → ℤ × World
  count_pulse_us pulse timeout transition_edge g w =
      let before = wait_level (Pin.not_level pulse) timeout (timeout + 2) 0 g w in
      if transition_edge == 0 then count_pulse pulse timeout g w else elim before.0 [
        | none ↦ (negsuc 0, before.1)
        | some i ↦ count_pulse pulse timeout g before.1
      ]

  -- The loop of `read2` over the cycles; the counts are not negative where no edge is waited for.
  unfoldable pub measure2 : ℕ → GpioDriver → World → List Cycle × World
  measure2 zero g w = ([], w)
  measure2 (suc n) g w =
      let low = count_pulse_us 0 55 0 g w in
      let high = count_pulse_us 1 75 0 g low.1 in
      let rest = measure2 n g high.1 in ((pos_part low.0, pos_part high.0) ∷ rest.0, rest.1)

  abbrev request2 : GpioDriver → World → World
  request2 g w =
      let w1 = (Pin.mode idf gpio_mode_input_output g w).1 in
      let w2 = delay_ms 20 (Pin.write idf 0 g w1) in
      let w3 = (Pin.mode idf gpio_mode_input g (Pin.write idf 1 g w2)).1 in
      Pin.pull idf gpio_pullup_only g w3

  -- `read2`, which does not look at the sum of the bytes.
  unfoldable pub read2 : Dht → World → (Dht × Bool) × World
  read2 d w =
      let g = d.gpio in
      let low = count_pulse_us 0 85 1 g (request2 g w) in
      let high = count_pulse_us 1 85 0 g low.1 in
      let cycles = measure2 40 g high.1 in
      let release = count_pulse_us 0 60 0 g cycles.1 in
      let r = decode cycles.0 0 no_data in
      let cleared = record d { raw = no_data } in
      if ltb_ℤ low.0 (pos 1)
      then ((cleared, false), low.1)
      else if ltb_ℤ high.0 (pos 1)
      then ((cleared, false), high.1)
      else ((record d { raw = r.1 }, r.0), release.1)
