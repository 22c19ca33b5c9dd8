-- ===== src/Ds1307/Laws.antt =====
-- What is written to the older clock module and read from it again, and the bit that stops it.
use acionna.Prelude.{
  ℕ, ◌+◌, ◌/◌, ◌%◌, ◌≤◌, ◌<◌, ◌≡◌, refl, ◌∙◌, ap, arith, all_below, all_below_sound, ◌==◌, true,
  Bool-cases, inl, inr, [], ◌∷◌, get_or, length, u16, bit_and,
}
use acionna.Board.{Board}
use acionna.Ds3231.{Format, decode_second, decode_hour, decode_day, encode_week_day, format_of}
use acionna.Ds3231.Laws.{
  KeepsDate, IsLegal, registers_shown, day_lem, second_lem, hour_lem, format_lem, year_found,
}
use acionna.Ds1307.{Ds1307, addr, reg_seconds, n_registers, read, fetch, enable, date_time, year_of}

-- With a module whose registers keep a legal date and time, the date and time that `date_time` sets are
-- the ones that `fetch` reads back, in the 24-hour format: a date of the years 2000 to 2099 and a time
-- of the day.
pub date_time-fetched :
    (b : Board)
    → KeepsDate b n_registers
    → (yr mo da hou min sec : ℕ) (x : Ds1307) (w : b.World) → 7 ≤ length x.data_raw
    → IsLegal yr mo da hou min sec 1
    → let (y, w') = date_time b yr mo da hou min sec x w in
      let r = (fetch b y w').0 in
      (year_of r ≡ yr)
      × (r.month ≡ mo)
      × (r.day ≡ da)
      × (r.hour ≡ hou)
      × (r.min ≡ min)
      × (r.sec ≡ sec)
      × (r.format ≡ Format.h24)
unfolding date_time fetch year_of encode_week_day
date_time-fetched b k yr mo da hou min sec x w l legal =
    let found =
      registers_shown b n_registers k yr mo da hou min sec (encode_week_day 1) x.data_raw w in
    (
      ap (λ (t : ℕ). u16 (decode_day t + 2000)) (found 6 legal l (omega arith))
          ∙ year_found yr legal.year_low legal.year_high,
      ap decode_day (found 5 legal l (omega arith)) ∙ day_lem mo (omega (arith, legal.month_high)),
      ap decode_day (found 4 legal l (omega arith)) ∙ day_lem da (omega (arith, legal.day_high)),
      ap decode_hour (found 2 legal l (omega arith))
          ∙ hour_lem hou (omega (arith, legal.hour_high)),
      ap decode_second (found 1 legal l (omega arith))
          ∙ second_lem min (omega (arith, legal.minute_high)),
      ap decode_second (found 0 legal l (omega arith))
          ∙ second_lem sec (omega (arith, legal.second_high)),
      ap format_of (found 2 legal l (omega arith))
          ∙ format_lem hou (omega (arith, legal.hour_high)),
    )

-- The seconds' register as a read shows it: a byte, which keeps what was written to it last, and which
-- a read leaves as it is.
pub record KeepsSeconds (b : Board) : Type 0 where
  pub seconds : b.World → ℕ
  pub in_byte : (w : b.World) → seconds w < 256
  pub shown : (w : b.World) → get_or (read b reg_seconds 1 w).0 0 0 ≡ seconds w
  pub read_keeps : (w : b.World) → seconds (read b reg_seconds 1 w).1 ≡ seconds w
  pub written :
      (v : ℕ) (w : b.World) → v < 256 → seconds (b.transmit addr (reg_seconds ∷ v ∷ []) w) ≡ v

-- The bit that stops the clock, and the digits below it.
abbrev pub stop_bit : ℕ → ℕ
stop_bit byte = bit_and (byte / 128) 1

all_started : all_below 256 (λ n. stop_bit (bit_and n 127) == 0) ≡ true
unfolding all_below
all_started = refl

all_digits : all_below 256 (λ n. decode_second (bit_and n 127) == decode_second n) ≡ true
unfolding all_below decode_second
all_digits = refl

all_bytes : all_below 256 (λ n. bit_and n 127 == n % 128) ≡ true
unfolding all_below
all_bytes = refl

started : (n : ℕ) → n < 256 → stop_bit (bit_and n 127) ≡ 0
started n h =
    let e = all_below_sound (λ m. stop_bit (bit_and m 127) == 0) 256 n h all_started in ground arith

same_digits : (n : ℕ) → n < 256 → decode_second (bit_and n 127) ≡ decode_second n
same_digits n h =
    let e =
      all_below_sound (λ m. decode_second (bit_and m 127) == decode_second m) 256 n h all_digits in
    ground arith

low_byte : (n : ℕ) → n < 256 → bit_and n 127 < 256
low_byte n h =
    let e = all_below_sound (λ m. bit_and m 127 == m % 128) 256 n h all_bytes in ground arith

is_zero : (n : ℕ) → (n == 0) ≡ true → n ≡ 0
is_zero n e = ground arith

module _ (b : Board) (k : KeepsSeconds b) where
  open b use {World}
  open k use {seconds}

  -- After `enable(1)` the clock runs, and the seconds' digits are the ones before.
  pub enable-runs :
      (w : World)
      → (stop_bit (seconds (enable b 1 w)) ≡ 0)
        × (decode_second (seconds (enable b 1 w)) ≡ decode_second (seconds w))
  unfolding enable
  enable-runs w =
      let n = seconds w in
      let h = k.in_byte w in
      let wrote = k.written (bit_and n 127) (read b reg_seconds 1 w).1 (low_byte n h) in
      elim (Bool-cases (stop_bit n == 0)) [
        | inl e ↦ rw (k.shown w, e, k.read_keeps w) (is_zero (stop_bit n) e, refl)
        | inr e ↦ rw (k.shown w, e, wrote) (started n h, same_digits n h)
      ]
