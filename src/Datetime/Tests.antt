-- ===== src/Datetime/Tests.antt =====
-- The two classes of dates at one time.
use acionna.Prelude.{◌≡◌, arith}
use acionna.Clock.{TimeFormat, DayPeriod}
use acionna.Clock
use acionna.Datetime.{DateTime, set_unix_time, get_unix_time, get_hour}
use acionna.Datetime.Agreement.{as_clock, set_unix_time-agrees}

abbrev afternoon : DateTime
afternoon = record {
  year = 2024;
  month = 2;
  day = 29;
  hour = 15;
  minute = 4;
  second = 5;
  period = DayPeriod.pm;
  time_mode = TimeFormat.h12;
  time_fuse = 0;
}

set_unix_time-agrees_example :
    (as_clock (set_unix_time 1709220896 afternoon)
      ≡ Clock.set_unix_time 1709220896 (as_clock afternoon))
    × (get_unix_time afternoon ≡ Clock.unix_time (as_clock afternoon))
    × (get_hour afternoon ≡ Clock.get_hour (as_clock afternoon))
set_unix_time-agrees_example = set_unix_time-agrees 1709220896 afternoon (omega arith)
