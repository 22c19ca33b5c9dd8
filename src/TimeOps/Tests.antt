-- ===== src/TimeOps/Tests.antt =====
-- The comparisons and the second of the day at concrete inputs.
use acionna.Prelude.{ℕ, ◌≡◌, arith}
use acionna.TimeOps.{Tm, time_compare}
use acionna.TimeOps.Laws.{sign, second_of, time_compare-sign}

abbrev at_time : ℕ → ℕ → ℕ → Tm
at_time hour min sec = record {
  tm_year = 124;
  tm_mon = 1;
  tm_mday = 29;
  tm_hour = hour;
  tm_min = min;
  tm_sec = sec;
}

time_compare-sign_example :
    time_compare (at_time 6 59 59) (at_time 7 0 0)
    ≡ sign (second_of (at_time 6 59 59)) (second_of (at_time 7 0 0))
time_compare-sign_example =
    time_compare-sign (at_time 6 59 59) (at_time 7 0 0) (omega arith, omega arith, omega arith)
      (omega arith, omega arith, omega arith)
