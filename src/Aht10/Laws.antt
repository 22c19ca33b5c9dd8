-- ===== src/Aht10/Laws.antt =====
-- The measured values of the sensor.
use acionna.Prelude.{ℕ, ◌+◌, ◌*◌, ◌/◌, ◌%◌, ◌^◌, ◌<◌, ◌≡◌, refl, arith, [], ◌∷◌}
use acionna.Bits.{or_shifted, and_mask}
use acionna.Aht10.{Aht10, raw_humidity, raw_temperature, limited}

abbrev pub five_bytes : ℕ → ℕ → ℕ → ℕ → ℕ → ℕ
five_bytes d1 d2 d3 d4 d5 = (((d1 * 256 + d2) * 256 + d3) * 256 + d4) * 256 + d5

raw_humidity_lem :
    (x : Aht10) (s d1 d2 d3 d4 d5 : ℕ)
    → x.data_raw ≡ s ∷ d1 ∷ d2 ∷ d3 ∷ d4 ∷ d5 ∷ []
    → d2 < 256
    → d3 < 256
    → raw_humidity x ≡ (d1 * 256 + d2) * 16 + d3 / 16
unfolding raw_humidity
raw_humidity_lem x s d1 d2 d3 d4 d5 e h2 h3 =
    rw (e, or_shifted 8 d1 d2 h2, or_shifted 4 (d1 * 2 ^ 8 + d2) (d3 / 2 ^ 4) (omega arith)) refl

raw_temperature_lem :
    (x : Aht10) (s d1 d2 d3 d4 d5 : ℕ)
    → x.data_raw ≡ s ∷ d1 ∷ d2 ∷ d3 ∷ d4 ∷ d5 ∷ []
    → d4 < 256
    → d5 < 256
    → raw_temperature x ≡ (d3 % 16 * 256 + d4) * 256 + d5
unfolding raw_temperature
raw_temperature_lem x s d1 d2 d3 d4 d5 e h4 h5 =
    rw
      (
        e,
        and_mask 4 d3,
        or_shifted 8 (d3 % 2 ^ 4) d4 h4,
        or_shifted 8 (d3 % 2 ^ 4 * 2 ^ 8 + d4) d5 h5,
      )
      refl

-- Of a status byte and five data bytes: the number with the digits `raw_humidity` and `raw_temperature` to
-- the base 2^20 is the number of the five data bytes, so that each bit of them is in one of the two
-- values; the temperature is below 2^20; and the limit leaves the humidity as it is.
pub raw_humidity-raw_temperature :
    (x : Aht10) (s d1 d2 d3 d4 d5 : ℕ)
    → x.data_raw ≡ s ∷ d1 ∷ d2 ∷ d3 ∷ d4 ∷ d5 ∷ []
    → d1 < 256
    → d2 < 256
    → d3 < 256
    → d4 < 256
    → d5 < 256
    → (raw_humidity x * 1048576 + raw_temperature x ≡ five_bytes d1 d2 d3 d4 d5)
      × (raw_temperature x < 1048576)
      × (limited (raw_humidity x) ≡ raw_humidity x)
unfolding limited
raw_humidity-raw_temperature x s d1 d2 d3 d4 d5 e h1 h2 h3 h4 h5 =
    let h = raw_humidity_lem x s d1 d2 d3 d4 d5 e h2 h3 in
    let t = raw_temperature_lem x s d1 d2 d3 d4 d5 e h4 h5 in
    rw (h, t) (omega arith, omega arith, ground arith)
