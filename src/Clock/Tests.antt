-- ===== src/Clock/Tests.antt =====
-- The clock at concrete inputs.
use acionna.Prelude.{◌+◌, ◌≡◌, refl, arith, u32}
use acionna.Clock
use acionna.Clock.{
  DateTime, DayPeriod, TimeFormat, set_date_time, set_unix_time, unix_time, days_before, leap_year,
}
use acionna.Clock.Laws.{IsDate, set_date_time-IsDate}
use acionna.Clock.RoundTrip.{unix_time-set_unix_time}
use acionna.Clock.Inverse.{set_unix_time-unix_time}
use acionna.Clock.Clockin.{Clockin, fetch, update}
use acionna.Clock.Keeping.{fetch-update_later}

-- 2024-02-29 12:34:56 at three hours behind, and back.
round_trip : unix_time (set_unix_time 1709220896 Clock.new) ≡ 1709220896
unfolding unix_time set_unix_time days_before leap_year
round_trip = refl

set_date_time-IsDate_example : IsDate (set_date_time 2024 2 31 30 99 60 DayPeriod.nd Clock.new)
set_date_time-IsDate_example = set_date_time-IsDate 2024 2 31 30 99 60 DayPeriod.nd Clock.new

abbrev leap_day_noon : DateTime
leap_day_noon = record (Clock.new) { year = 2024; month = 2; day = 29; hour = 12 }

leap_day_noon-IsDate : IsDate leap_day_noon
unfolding leap_year
leap_day_noon-IsDate = record {
  month_low = omega arith;
  month_high = omega arith;
  day_low = omega arith;
  day_high = omega arith;
  hour_high = omega arith;
  minute_high = omega arith;
  second_high = omega arith;
}

unix_time-set_unix_time_example : unix_time (set_unix_time 1709220896 Clock.new) ≡ 1709220896
unix_time-set_unix_time_example =
    unix_time-set_unix_time 1709220896 Clock.new (omega arith) (omega arith) (omega arith)
      (omega arith)

set_unix_time-unix_time_example :
    set_unix_time (unix_time leap_day_noon) leap_day_noon ≡ leap_day_noon
set_unix_time-unix_time_example =
    set_unix_time-unix_time leap_day_noon leap_day_noon-IsDate (omega arith) (omega arith)
      (omega arith)

abbrev device : Clockin
device = record { dt = leap_day_noon; time_offset = 0; unix_time = 0 }

leap_day_seconds : unix_time leap_day_noon ≡ 1709218800
unfolding unix_time days_before leap_year
leap_day_seconds = refl

-- A day later, on the first of March.
fetch-update_later_example :
    let r = fetch (100 + 86400) (update 100 device) in
    (unix_time r.dt ≡ u32 (unix_time device.dt + 86400))
    × (r.unix_time ≡ u32 (unix_time device.dt + 86400))
fetch-update_later_example =
    fetch-update_later 100 86400 device (omega arith) (omega arith)
      (omega (arith, leap_day_seconds)) (omega (arith, leap_day_seconds))
