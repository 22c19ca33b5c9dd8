-- ===== src/Clock.antt =====
-- Class Date_Time (components/clock/date_time.cpp): dates, times and the seconds since 1970. The
-- fuse in seconds is kept as the 32-bit word that it is added as. The static member function
-- `leap_year` reads the year alone, so it is a function of the year here.
pub mod Laws
pub mod Cycle
pub mod Clockin
pub mod Keeping
pub mod RoundTrip
pub mod Inverse
pub mod Copy
mod Tests
use acionna.Prelude.{
  ℕ, zero, suc, ◌+◌, ◌-◌, ◌*◌, ◌/◌, ◌%◌, Bool, true, false, not, ◌&&◌, ◌==◌, ltb, if◌then◌else◌,
  List, [], ◌∷◌, get_or, bit_and, u8, u16, u32, ℤ, pos, negsuc,
}

pub data TimeFormat : Type 0 where
  h12 h24 : TimeFormat

pub data DayPeriod : Type 0 where
  am pm nd : DayPeriod

pub record DateTime : Type 0 where
  pub year : ℕ
  pub month : ℕ
  pub day : ℕ
  pub hour : ℕ
  pub minute : ℕ
  pub second : ℕ
  pub period : DayPeriod
  pub time_format : TimeFormat
  pub fuse : ℤ
  pub fuse_sec : ℕ

abbrev pub month_length : List ℕ
month_length = 31 ∷ 28 ∷ 31 ∷ 30 ∷ 31 ∷ 30 ∷ 31 ∷ 31 ∷ 30 ∷ 31 ∷ 30 ∷ 31 ∷ []

abbrev pub constrain : ℕ → ℕ → ℕ → ℕ
constrain n low high = if ltb n low then low else if ltb high n then high else n

unfoldable pub leap_year : ℕ → Bool
leap_year year =
    if not (year % 4 == 0)
    then false
    else if not (year % 100 == 0)
    then true
    else if not (year % 400 == 0)
    then false
    else true

unfoldable pub set_year : ℕ → DateTime → DateTime
set_year yr d = record d { year = yr }

unfoldable pub set_month : ℕ → DateTime → DateTime
set_month mo d = record d { month = constrain mo 1 12 }

-- The longest day number of the month.
abbrev pub max_day : DateTime → ℕ
max_day d =
    let days = get_or month_length (d.month - 1) 0 in
    if (d.month == 2) && leap_year d.year then days + 1 else days

unfoldable pub set_day : ℕ → DateTime → DateTime
set_day da d = record d { day = constrain da 1 (max_day d) }

abbrev or_am : DayPeriod → DayPeriod
or_am DayPeriod.nd = DayPeriod.am
or_am per = per

abbrev plus_12 : DayPeriod → ℕ → ℕ
plus_12 DayPeriod.pm hour = u8 (hour + 12)
plus_12 _ hour = hour

abbrev pub in_format : TimeFormat → DayPeriod → DateTime → DateTime
in_format TimeFormat.h24 per d = d
in_format TimeFormat.h12 per d = record d { period = or_am per; hour = plus_12 (or_am per) d.hour }

-- In the 12-hour format 12 is added to the old hour, which the last line overwrites.
unfoldable pub set_hour : ℕ → DayPeriod → DateTime → DateTime
set_hour hor per d = record (in_format d.time_format per d) { hour = constrain hor 0 23 }

unfoldable pub set_minute : ℕ → DateTime → DateTime
set_minute min d = record d { minute = constrain min 0 59 }

unfoldable pub set_second : ℕ → DateTime → DateTime
set_second sec d = record d { second = constrain sec 0 59 }

unfoldable pub set_date : ℕ → ℕ → ℕ → DateTime → DateTime
set_date yr mo da d = set_day da (set_month mo (set_year yr d))

unfoldable pub set_time : ℕ → ℕ → ℕ → DayPeriod → DateTime → DateTime
set_time hor min sec per d = set_second sec (set_minute min (set_hour hor per d))

unfoldable pub set_date_time : ℕ → ℕ → ℕ → ℕ → ℕ → ℕ → DayPeriod → DateTime → DateTime
set_date_time yr mo da hor min sec per d = set_time hor min sec per (set_date yr mo da d)

-- Date_Time(), with the default format and three hours behind; `date_time(0, 0, 0, 0, 0, 0)` sets the
-- first day of January.
abbrev pub new : DateTime
new = record {
  year = 0;
  month = 1;
  day = 1;
  hour = 0;
  minute = 0;
  second = 0;
  period = DayPeriod.nd;
  time_format = TimeFormat.h24;
  fuse = negsuc 2;
  fuse_sec = 4294956496;
}

-- unix_time(ut): the days and seconds since 1970 as a date and a time.
unfoldable pub set_unix_time : ℕ → DateTime → DateTime
set_unix_time ut d =
    let t = u32 (ut + d.fuse_sec) in
    let days = t / 86400 in
    let secs = t % 86400 in
    let mins = secs / 60 in
    let years = (days * 4 + 2) / 1461 in
    let year = u16 (years + 1970) in
    let leap = if bit_and year 3 == 0 then 1 else 0 in
    let left = days - (years * 1461 + 1) / 4 in
    let in_year =
      if ltb (58 + leap) left then (if leap == 1 then left + 1 else left + 2) else left in
    let month = u8 ((in_year * 12 + 6) / 367 + 1) in
    record d {
      second = u8 (secs % 60);
      hour = u8 (mins / 60);
      minute = u8 (mins % 60);
      year = year;
      month = month;
      day = u8 (in_year + 1 - ((month - 1) * 367 + 5) / 12);
    }

-- The loop that adds the lengths of the months before.
unfoldable pub days_before : ℕ → ℕ
days_before zero = 0
days_before (suc n) = days_before n + get_or month_length n 0

-- The years since 2000 in days, added to the 16-bit count: `int` arithmetic with a division that
-- rounds to 0, which is negative before 2000 and is then cut to 16 bits.
abbrev pub add_years : ℕ → ℕ → ℕ
add_years dc year =
    let y = year - 2000 in
    if ltb year 2000
    then u16 (dc + 12 * 65536 - 365 * (2000 - year) - (1997 - year) / 4 - 1)
    else u16 (dc + 365 * y + (y + 3) / 4 - 1)

-- unix_time()
unfoldable pub unix_time : DateTime → ℕ
unix_time d =
    let dc = u16 (d.day + days_before (d.month - 1)) in
    let dc1 = if ltb 2 d.month && leap_year d.year then u16 (dc + 1) else dc in
    let dc2 = add_years dc1 d.year in
    u32 (
      ((dc2 * 24 + d.hour) * 60 + d.minute) * 60 + d.second + (4294967296 - d.fuse_sec) + 946684800)

-- hour(), an `uint8_t`: 12 less in the afternoon of the 12-hour format.
unfoldable pub get_hour : DateTime → ℕ
get_hour d = elim d.time_format [
  | TimeFormat.h24 ↦ d.hour
  | TimeFormat.h12 ↦ elim d.period [ DayPeriod.pm ↦ u8 (d.hour + 244) | _ ↦ d.hour ]
]

-- The static day_of_week(year, month, day); `month =+ 12` sets the month to 12.
unfoldable pub day_of_week_of : ℕ → ℕ → ℕ → ℕ
day_of_week_of year month day =
    let m = if ltb month 3 then 12 else month - 2 in
    let y = if ltb month 3 then u16 (year + 65535) else year in
    let k = y % 100 in
    let j = y / 100 in (700 + (26 * m - 2) / 10 + day + k + k / 4 + (j / 4 + 5 * j)) % 7

-- day_of_week() hands the day over as the year, and the year, cut to 8 bits, as the day.
unfoldable pub day_of_week : DateTime → ℕ
day_of_week d = day_of_week_of d.day d.month (u8 d.year)

-- fs*3600 as the 32-bit word.
abbrev pub fuse_word : ℤ → ℕ
fuse_word (pos n) = u32 (n * 3600)
fuse_word (negsuc n) = u32 ((4294967295 - n) * 3600)

-- fuse(fs)
unfoldable pub set_fuse : ℤ → DateTime → DateTime
set_fuse fs d = record d { fuse = fs; fuse_sec = fuse_word fs }

-- period()
unfoldable pub period_of : DateTime → DayPeriod
period_of d = if ltb d.hour 12 then DayPeriod.am else DayPeriod.pm

-- date(date), into another object.
unfoldable pub copy_date : DateTime → DateTime → DateTime
copy_date d target = record target { year = d.year; month = d.month; day = d.day }

-- time(time), into another object: `day_period()` is the first value of the type, and the fuse is
-- copied without its seconds.
unfoldable pub copy_time : DateTime → DateTime → DateTime
copy_time d target = record target {
  hour = get_hour d;
  minute = d.minute;
  second = d.second;
  period = DayPeriod.am;
  time_format = d.time_format;
  fuse = d.fuse;
}

-- date_time(dt)
unfoldable pub copy_date_time : DateTime → DateTime → DateTime
copy_date_time d target = copy_time d (copy_date d target)
