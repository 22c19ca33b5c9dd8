-- ===== src/Ds3231/Tests.antt =====
-- The clock module's theorem on a module that keeps its registers.
use acionna.Prelude.{ℕ, ◌≡◌, refl, true, false, arith, List, [], ◌∷◌, replicate, zero}
use acionna.Board.{Board}
use acionna.Panel.{thousandth_fpu}
use acionna.Ds3231.{
  Ds3231, Format, Period, year_of, decode_hour, with_format, date_time, fetch, n_registers,
}
use acionna.Ds3231.Laws.{KeepsDate, IsLegal, fetch-date_time}

-- The registers after a transfer that starts at the first one.
abbrev store : List ℕ → List ℕ → List ℕ
store (zero ∷ raw) w = raw
store _ w = w

abbrev clock_board : Board
clock_board = record {
  fpu = thousandth_fpu;
  World = List ℕ;
  load_level = λ i w. false;
  load_write = λ i v w. w;
  input_level = λ i w. false;
  delay_us = λ t w. w;
  transmit = λ addr bytes w. store bytes w;
  receive = λ addr len w. (w, w);
  transmit_receive = λ addr bytes len w. (w, w);
  probe = λ addr w. (true, w);
}

clock_board-KeepsDate : KeepsDate clock_board n_registers
clock_board-KeepsDate = record { kept = λ yr mo da hou min sec week w i legal p. refl }

-- The register of 11 PM, turned to the 24-hour format, reads 31.
kept_digits : decode_hour (with_format Format.h24 0x71) ≡ 31
unfolding decode_hour
kept_digits = refl

abbrev module_object : Ds3231
module_object = record {
  data_raw = replicate 19 0;
  sec = 0;
  min = 0;
  hour = 0;
  week_day = 0;
  day = 0;
  month = 0;
  year = 0;
  ctrl = 0;
  format = Format.h12;
  period = Period.am;
}

abbrev no_bytes : List ℕ
no_bytes = []

leap_day : IsLegal 2024 2 29 23 59 58 1
leap_day = record {
  year_low = omega arith;
  year_high = omega arith;
  month_low = omega arith;
  month_high = omega arith;
  day_low = omega arith;
  day_high = omega arith;
  day_fits = omega arith;
  hour_high = omega arith;
  minute_high = omega arith;
  second_high = omega arith;
  week_low = omega arith;
  week_high = omega arith;
}

fetch-date_time_example :
    let (y, w') = date_time clock_board 2024 2 29 23 59 58 module_object no_bytes in
    let r = (fetch clock_board y w').0 in
    (year_of r ≡ 2024)
    × (r.month ≡ 2)
    × (r.day ≡ 29)
    × (r.hour ≡ 23)
    × (r.min ≡ 59)
    × (r.sec ≡ 58)
    × (r.format ≡ Format.h24)
fetch-date_time_example =
    fetch-date_time clock_board clock_board-KeepsDate 2024 2 29 23 59 58 module_object no_bytes
      (omega arith) leap_day
