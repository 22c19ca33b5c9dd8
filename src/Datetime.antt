-- ===== src/Datetime.antt =====
-- Class DateTime (components/helper/datetime.cpp): the older class of dates, without an offset to UTC.
-- The member `_timeFuse` is kept and not used.
pub mod Agreement
mod Tests
use acionna.Prelude.{
  ℕ, zero, suc, ◌+◌, ◌-◌, ◌*◌, ◌/◌, ◌%◌, Bool, true, false, not, ◌&&◌, ◌==◌, ltb, if◌then◌else◌,
  List, get_or, bit_and, u8, u16, u32,
}
use acionna.Clock.{TimeFormat, DayPeriod, month_length, constrain, days_before, add_years}

pub record DateTime : Type 0 where
  pub year : ℕ
  pub month : ℕ
  pub day : ℕ
  pub hour : ℕ
  pub minute : ℕ
  pub second : ℕ
  pub period : DayPeriod
  pub time_mode : TimeFormat
  pub time_fuse : ℕ

unfoldable pub is_leap_year : DateTime → Bool
is_leap_year d =
    if not (d.year % 4 == 0)
    then false
    else if not (d.year % 100 == 0)
    then true
    else if not (d.year % 400 == 0)
    then false
    else true

unfoldable pub set_year : ℕ → DateTime → DateTime
set_year year d = record d { year = year }

unfoldable pub set_month : ℕ → DateTime → DateTime
set_month month d = record d { month = constrain month 1 12 }

unfoldable pub set_day : ℕ → DateTime → DateTime
set_day day d =
    let days = get_or month_length (d.month - 1) 0 in
    let max_day = if (d.month == 2) && is_leap_year d then days + 1 else days in
    record d { day = constrain day 1 max_day }

-- In the 12-hour format the period is set, and 12 added to an hour that is set next.
abbrev pub in_mode : TimeFormat → DayPeriod → DateTime → DateTime
in_mode TimeFormat.h24 period d = d
in_mode TimeFormat.h12 DayPeriod.pm d = record d { period = DayPeriod.pm; hour = u8 (d.hour + 12) }
in_mode TimeFormat.h12 _ d = record d { period = DayPeriod.am }

unfoldable pub set_hour : ℕ → DayPeriod → DateTime → DateTime
set_hour hour period d = record (in_mode d.time_mode period d) { hour = constrain hour 0 23 }

unfoldable pub set_minute : ℕ → DateTime → DateTime
set_minute minute d = record d { minute = constrain minute 0 59 }

unfoldable pub set_second : ℕ → DateTime → DateTime
set_second second d = record d { second = constrain second 0 59 }

unfoldable pub set_date : ℕ → ℕ → ℕ → DateTime → DateTime
set_date year month day d = set_day day (set_month month (set_year year d))

unfoldable pub set_time : ℕ → ℕ → ℕ → DayPeriod → DateTime → DateTime
set_time hour minute second period d =
    set_second second (set_minute minute (set_hour hour period d))

-- The day comes in 16 bits and goes on in 8.
unfoldable pub set_date_time : ℕ → ℕ → ℕ → ℕ → ℕ → ℕ → DayPeriod → DateTime → DateTime
set_date_time year month day hour minute second period d =
    set_time hour minute second period (set_date year month (u8 day) d)

unfoldable pub set_unix_time : ℕ → DateTime → DateTime
set_unix_time unix_time d =
    let day = unix_time / 86400 in
    let secs = unix_time % 86400 in
    let mins = secs / 60 in
    let year = (day * 4 + 2) / 1461 in
    let year1 = u16 (year + 1970) in
    let leap = if bit_and year1 3 == 0 then 1 else 0 in
    let left = day - (year * 1461 + 1) / 4 in
    let in_year =
      if ltb (58 + leap) left then (if leap == 1 then left + 1 else left + 2) else left in
    let month = u8 ((in_year * 12 + 6) / 367 + 1) in
    record d {
      second = u8 (secs % 60);
      hour = u8 (mins / 60);
      minute = u8 (mins % 60);
      year = year1;
      month = month;
      day = u8 (in_year + 1 - ((month - 1) * 367 + 5) / 12);
    }

unfoldable pub get_unix_time : DateTime → ℕ
get_unix_time d =
    let dc = u16 (d.day + days_before (d.month - 1)) in
    let dc1 = if ltb 2 d.month && is_leap_year d then u16 (dc + 1) else dc in
    u32 (((add_years dc1 d.year * 24 + d.hour) * 60 + d.minute) * 60 + d.second + 946684800)

-- An `uint8_t`.
unfoldable pub get_hour : DateTime → ℕ
get_hour d = elim d.time_mode [
  | TimeFormat.h24 ↦ d.hour
  | TimeFormat.h12 ↦ elim d.period [ DayPeriod.pm ↦ u8 (d.hour + 244) | _ ↦ d.hour ]
]

unfoldable pub get_day_period : DateTime → DayPeriod
get_day_period d = if ltb d.hour 12 then DayPeriod.am else DayPeriod.pm

-- getDate(date), getTime(time) and getDateTime(dateTime) write to another object.
unfoldable pub get_date : DateTime → DateTime → DateTime
get_date d date = record date { year = d.year; month = d.month; day = d.day }

unfoldable pub get_time : DateTime → DateTime → DateTime
get_time d time = record time {
  hour = get_hour d;
  minute = d.minute;
  second = d.second;
  period = get_day_period d;
  time_mode = d.time_mode;
  time_fuse = d.time_fuse;
}

unfoldable pub get_date_time : DateTime → DateTime → DateTime
get_date_time d other = get_time d (get_date d other)

-- The static dayOfWeek(day, month, year); `month =+ 12` sets the month to 12.
unfoldable pub day_of_week_of : ℕ → ℕ → ℕ → ℕ
day_of_week_of day month year =
    let m = if ltb month 3 then 12 else month - 2 in
    let y = if ltb month 3 then u16 (year + 65535) else year in
    let k = y % 100 in
    let j = y / 100 in (700 + (26 * m - 2) / 10 + day + k + k / 4 + (j / 4 + 5 * j)) % 7

unfoldable pub day_of_week : DateTime → ℕ
day_of_week d = day_of_week_of d.day d.month d.year
