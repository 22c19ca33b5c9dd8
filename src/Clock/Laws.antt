-- ===== src/Clock/Laws.antt =====
-- What the setters and the two `unix_time` functions guarantee.
use acionna.Prelude.{
  ℕ, all_below, all_below_sound, leb, ◌+◌, ◌-◌, ◌*◌, ◌%◌, ◌≤◌, ◌≡◌, refl, true, arith, get_or,
}
use acionna.Clock.{
  DateTime, DayPeriod, TimeFormat, constrain, month_length, max_day, in_format, set_year, set_month,
  set_day, set_hour, set_minute, set_second, set_date, set_time, set_date_time, set_unix_time,
}

-- A date of the calendar and a time of the day.
pub record IsDate (d : DateTime) : Type 0 where
  pub month_low : 1 ≤ d.month
  pub month_high : d.month ≤ 12
  pub day_low : 1 ≤ d.day
  pub day_high : d.day ≤ max_day d
  pub hour_high : d.hour ≤ 23
  pub minute_high : d.minute ≤ 59
  pub second_high : d.second ≤ 59

constrain_between :
    (n low high : ℕ) → low ≤ high → (low ≤ constrain n low high) × (constrain n low high ≤ high)
constrain_between n low high h = (ground arith, ground arith)

length_positive : (m : ℕ) → 1 ≤ m → m ≤ 12 → 1 ≤ get_or month_length (m - 1) 0
length_positive m h h' = of_leb (
    all_below_sound (λ i. leb 1 (get_or month_length i 0)) 12 (m - 1) (omega arith)
      (unfold all_below in refl))
  where
    of_leb : {n : ℕ} → leb 1 n ≡ true → 1 ≤ n
    of_leb e = ground arith

max_day_positive : (d : DateTime) → 1 ≤ d.month → d.month ≤ 12 → 1 ≤ max_day d
max_day_positive d h h' = ground (arith, length_positive d.month h h')

-- `hour` leaves the date alone.
in_format-date :
    (f : TimeFormat) (per : DayPeriod) (d : DateTime)
    → let r = in_format f per d in (r.year ≡ d.year) × (r.month ≡ d.month) × (r.day ≡ d.day)
in_format-date TimeFormat.h24 per d = (refl, refl, refl)
in_format-date TimeFormat.h12 per d = (refl, refl, refl)

-- Whatever six numbers the setters are given, what they leave is a date and a time: the day is cut
-- to the length that the month has in that year.
pub set_date_time-IsDate :
    (yr mo da hor min sec : ℕ) (per : DayPeriod) (d : DateTime)
    → IsDate (set_date_time yr mo da hor min sec per d)
unfolding set_date_time set_date set_time set_year set_month set_day set_hour set_minute set_second
set_date_time-IsDate yr mo da hor min sec per d =
    let m = constrain_between mo 1 12 (omega arith) in
    let d0 = set_month mo (set_year yr d) in
    let n = constrain_between da 1 (max_day d0) (max_day_positive d0 m.0 m.1) in
    let d1 = set_day da d0 in
    let e = in_format-date d1.time_format per d1 in
    record {
      month_low = rw e.1 m.0;
      month_high = rw e.1 m.1;
      day_low = rw e.2 n.0;
      day_high = rw (e.0, e.1, e.2) n.1;
      hour_high = (constrain_between hor 0 23 (omega arith)).1;
      minute_high = (constrain_between min 0 59 (omega arith)).1;
      second_high = (constrain_between sec 0 59 (omega arith)).1;
    }

-- The hour, minute and second that `unix_time(ut)` sets are a time of the day, and together they are
-- the second of the day of `ut` shifted by the fuse, in 32 bits.
pub set_unix_time-second :
    (ut : ℕ) (d : DateTime)
    → let r = set_unix_time ut d in
      (r.hour * 3600 + r.minute * 60 + r.second ≡ (ut + d.fuse_sec) % 4294967296 % 86400)
      × (r.hour ≤ 23)
      × (r.minute ≤ 59)
      × (r.second ≤ 59)
unfolding set_unix_time
set_unix_time-second ut d = (omega arith, omega arith, omega arith, omega arith)
