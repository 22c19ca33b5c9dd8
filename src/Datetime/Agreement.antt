-- ===== src/Datetime/Agreement.antt =====
-- The older class of dates agrees with Date_Time at no offset to UTC.
use acionna.Prelude.{ℕ, ◌<◌, ◌≡◌, refl, ◌∙◌, ap, arith, u8, u32, ◌+◌, pos}
use acionna.Clock.{TimeFormat, DayPeriod}
use acionna.Clock
use acionna.Datetime
use acionna.Datetime.{
  DateTime, is_leap_year, set_year, set_month, set_day, set_hour, set_minute, set_second, set_date,
  set_time, set_date_time, set_unix_time, get_unix_time, get_hour,
}

abbrev pub as_clock : DateTime → Clock.DateTime
as_clock d = record {
  year = d.year;
  month = d.month;
  day = d.day;
  hour = d.hour;
  minute = d.minute;
  second = d.second;
  period = d.period;
  time_format = d.time_mode;
  fuse = pos 0;
  fuse_sec = 0;
}

in_mode_lem :
    (f : TimeFormat) (hour : ℕ) (p : DayPeriod) (d : DateTime)
    → as_clock (record (Datetime.in_mode f p d) { hour = hour })
      ≡ record (Clock.in_format f p (as_clock d)) { hour = hour }
in_mode_lem TimeFormat.h24 hour p d = refl
in_mode_lem TimeFormat.h12 hour DayPeriod.am d = refl
in_mode_lem TimeFormat.h12 hour DayPeriod.pm d = refl
in_mode_lem TimeFormat.h12 hour DayPeriod.nd d = refl

set_date-agrees :
    (year month day : ℕ) (d : DateTime)
    → as_clock (set_date year month day d) ≡ Clock.set_date year month day (as_clock d)
unfolding set_date set_year set_month set_day is_leap_year Clock.set_date Clock.set_year
    Clock.set_month Clock.set_day Clock.leap_year
set_date-agrees year month day d = refl

set_time-agrees :
    (hour minute second : ℕ) (p : DayPeriod) (d : DateTime)
    → as_clock (set_time hour minute second p d) ≡ Clock.set_time hour minute second p (as_clock d)
unfolding set_time set_hour set_minute set_second Clock.set_time Clock.set_hour Clock.set_minute
    Clock.set_second
set_time-agrees hour minute second p d =
    ap (λ (x : Clock.DateTime). Clock.set_second second (Clock.set_minute minute x))
      (in_mode_lem d.time_mode _ p d)

-- Setting a date and a time is the same in both classes, for a day of 8 bits.
pub set_date_time-agrees :
    (year month day hour minute second : ℕ) (p : DayPeriod) (d : DateTime)
    → as_clock (set_date_time year month day hour minute second p d)
      ≡ Clock.set_date_time year month (u8 day) hour minute second p (as_clock d)
unfolding set_date_time Clock.set_date_time
set_date_time-agrees year month day hour minute second p d =
    set_time-agrees hour minute second p (set_date year month (u8 day) d)
    ∙ ap (Clock.set_time hour minute second p) (set_date-agrees year month (u8 day) d)

-- At no offset to UTC the two classes set the same date and time from the seconds since 1970, and
-- count the same seconds and show the same hour for the same date and time.
pub set_unix_time-agrees :
    (ut : ℕ) (d : DateTime)
    → ut < 4294967296
    → (as_clock (set_unix_time ut d) ≡ Clock.set_unix_time ut (as_clock d))
      × (get_unix_time d ≡ Clock.unix_time (as_clock d))
      × (get_hour d ≡ Clock.get_hour (as_clock d))
unfolding set_unix_time get_unix_time get_hour is_leap_year Clock.set_unix_time Clock.unix_time
    Clock.leap_year Clock.get_hour
set_unix_time-agrees ut d h =
    let same : ut ≡ u32 (ut + 0) = omega arith in
    (ap (λ (t : ℕ). as_clock (set_unix_time t d)) same, omega arith, refl)
