-- ===== src/Aht10/Tests.antt =====
-- A measurement of 50 percent and 25 degrees on a concrete board.
use acionna.Prelude.{◌+◌, ◌*◌, ◌<◌, ◌≡◌, refl, arith, [], ◌∷◌}
use acionna.Panel.{thousandth_fpu}
use acionna.Aht10.{Aht10, raw_humidity, raw_temperature, limited, humidity, temperature}
use acionna.Aht10.Laws.{five_bytes, raw_humidity-raw_temperature}

abbrev measured : Aht10
measured = record {
  status_byte = 0x1c;
  data_raw = 0x1c ∷ 0x80 ∷ 0x00 ∷ 0x06 ∷ 0x00 ∷ 0x00 ∷ [];
  first_init = 0;
}

-- 50 percent, in thousandths.
humidity_run : humidity thousandth_fpu measured ≡ 50000
unfolding humidity limited raw_humidity
humidity_run = refl

-- 25 degrees, in thousandths.
temperature_run : temperature thousandth_fpu measured ≡ 25000
unfolding temperature raw_temperature
temperature_run = refl

raw_humidity-raw_temperature_example :
    (raw_humidity measured * 1048576 + raw_temperature measured
      ≡ five_bytes 0x80 0x00 0x06 0x00 0x00)
    × (raw_temperature measured < 1048576)
    × (limited (raw_humidity measured) ≡ raw_humidity measured)
raw_humidity-raw_temperature_example =
    raw_humidity-raw_temperature measured 0x1c 0x80 0x00 0x06 0x00 0x00 refl (omega arith)
      (omega arith) (omega arith) (omega arith) (omega arith)
