-- ===== src/Clock/Inverse.antt =====
-- A date and a time of the years 2000 to 2099 are found again from the seconds that `unix_time()`
-- counts for them.
use acionna.Prelude.{
  ℕ, all_below, all_below_sound, leb, ltb, ◌+◌, ◌-◌, ◌*◌, ◌/◌, ◌%◌, ◌≤◌, ◌<◌, ◌≡◌, refl, sym, ◌∙◌,
  ap, true, arith, ◌==◌, ◌&&◌, if◌then◌else◌, Bool, get_or,
}
use acionna.Clock.{
  DateTime, set_unix_time, unix_time, days_before, leap_year, max_day, month_length,
}
use acionna.Clock.Laws.{IsDate}
use acionna.Clock.Cycle.{
  one_if, month_of, day_of, cycle_year, cycle_place, leap_day, leap_year_century,
}
use acionna.Clock.RoundTrip.{unix_time_days, year_lem, place_lem}

-- The place in the cycle of a day of its year `y`.
abbrev place_of : ℕ → ℕ → ℕ → ℕ
place_of y month day =
    day + days_before (month - 1) + leap_day month (y == 2) + y * 365 + (y + 1) / 4 - 1

abbrev length_in : ℕ → ℕ → ℕ
length_in y month = get_or month_length (month - 1) 0 + one_if ((month == 2) && (y == 2))

abbrev found_again : ℕ → ℕ → ℕ → Bool
found_again y month day =
    let r = place_of y month day in
    if leb day (length_in y month)
    then ltb r 1461
      && (cycle_year r == y)
      && (month_of (cycle_place r) == month)
      && (day_of (cycle_place r) == day)
    else true

abbrev numbered : ℕ → Bool
numbered i = found_again (i / 384) (i % 384 / 32 + 1) (i % 32 + 1)

all_numbered : all_below 1536 numbered ≡ true
unfolding all_below days_before
all_numbered = refl

found_again_lem :
    (y month day : ℕ) → y < 4 → month < 12 → day < 32 → found_again y (month + 1) (day + 1) ≡ true
found_again_lem y month day hy hm hd =
    let i : ℕ = y * 384 + month * 32 + day in
    let a : i / 384 ≡ y = omega arith in
    let b : i % 384 / 32 ≡ month = omega arith in
    let c : i % 32 ≡ day = omega arith in
    let e : numbered i ≡ true = all_below_sound numbered 1536 i (omega arith) all_numbered in
    sym (λ t. found_again (a t) (b t + 1) (c t + 1)) ∙ e

length_bound : (m : ℕ) → m < 12 → get_or month_length m 0 < 32
length_bound m h =
    of_ltb
      (all_below_sound (λ i. ltb (get_or month_length i 0) 32) 12 m h (unfold all_below in refl))
  where
    of_ltb : {n : ℕ} → ltb n 32 ≡ true → n < 32
    of_ltb e = ground arith

four_tests :
    (day len r year y mo month da : ℕ)
    → (if leb day len then ltb r 1461 && (year == y) && (mo == month) && (da == day) else true)
      ≡ true
    → day ≤ len
    → (r < 1461) × (year ≡ y) × (mo ≡ month) × (da ≡ day)
four_tests day len r year y mo month da e h =
    (ground arith, ground arith, ground arith, ground arith)

-- A day of the cycle has its year, month and day back.
place_of-cycle :
    (y month day : ℕ)
    → y < 4
    → 1 ≤ month
    → month ≤ 12
    → 1 ≤ day
    → day ≤ length_in y month
    → let r = place_of y month day in
      (r < 1461)
      × (cycle_year r ≡ y)
      × (month_of (cycle_place r) ≡ month)
      × (day_of (cycle_place r) ≡ day)
place_of-cycle y month day hy m1 m12 d1 dl =
    let r = place_of y month day in
    let em : month - 1 + 1 ≡ month = omega arith in
    let ed : day - 1 + 1 ≡ day = omega arith in
    let short : day ≤ 32 = ground (arith, length_bound (month - 1) (omega arith), dl) in
    let e = found_again_lem y (month - 1) (day - 1) hy (omega arith) (omega arith) in
    four_tests day (length_in y month) r (cycle_year r) y (month_of (cycle_place r)) month
      (day_of (cycle_place r)) (sym (λ t. found_again y (em t) (ed t)) ∙ e) dl

from_fields :
    (d e : DateTime)
    → e.year ≡ d.year
    → e.month ≡ d.month
    → e.day ≡ d.day
    → e.hour ≡ d.hour
    → e.minute ≡ d.minute
    → e.second ≡ d.second
    → e.period ≡ d.period
    → e.time_format ≡ d.time_format
    → e.fuse ≡ d.fuse
    → e.fuse_sec ≡ d.fuse_sec
    → e ≡ d
from_fields d e p1 p2 p3 p4 p5 p6 p7 p8 p9 p10 = λ i. record {
  year = p1 i;
  month = p2 i;
  day = p3 i;
  hour = p4 i;
  minute = p5 i;
  second = p6 i;
  period = p7 i;
  time_format = p8 i;
  fuse = p9 i;
  fuse_sec = p10 i;
}

-- A date of the years 2000 to 2099 and a time of the day, its seconds since 1970 taken by
-- `unix_time()`: the setter `unix_time(ut)` on them gives the same object again, whatever the fuse.
pub set_unix_time-unix_time :
    (d : DateTime)
    → IsDate d
    → 2000 ≤ d.year
    → d.year < 2100
    → d.fuse_sec < 4294967296
    → set_unix_time (unix_time d) d ≡ d
unfolding set_unix_time
set_unix_time-unix_time d i low high hf =
    let k : ℕ = (d.year - 1970) / 4 in
    let y : ℕ = (d.year - 1970) % 4 in
    let r : ℕ = place_of y d.month d.day in
    let n : ℕ = k * 1461 + r - 10957 in
    let l : leap_year d.year ≡ (y == 2) = leap_year_century d.year low high ∙ third d.year low in
    let ml : max_day d ≡ length_in y d.month =
      as_length _ (d.month == 2) (leap_year d.year) (y == 2) l in
    let (in_cycle, cy, cm, cd) =
      place_of-cycle y d.month d.day (omega arith) i.month_low i.month_high i.day_low
        (omega (arith, i.day_high, ml)) in
    let p = i.day_low in
    let u = unix_time_days n d low (rw l (omega arith)) (omega arith) in
    let t : (unix_time d + d.fuse_sec) % 4294967296
        ≡ ((n * 24 + d.hour) * 60 + d.minute) * 60 + d.second + 946684800 =
      omega arith in
    let days : ℕ = (unix_time d + d.fuse_sec) % 4294967296 / 86400 in
    let few : days < 47482 = omega arith in
    let dr : days % 1461 ≡ r = omega arith in
    let place = place_lem days few ∙ ap cycle_place dr in
    from_fields d (set_unix_time (unix_time d) d) (year_lem days few ∙ omega arith)
      (ap month_of place ∙ cm) (ap day_of place ∙ cd) (omega arith) (omega arith) (omega arith) refl
      refl refl refl
  where
    third : (year : ℕ) → 2000 ≤ year → (year % 4 == 0) ≡ ((year - 1970) % 4 == 2)
    third year h = ground arith

    as_length :
        (len : ℕ) (m leap leap' : Bool)
        → leap ≡ leap'
        → (if m && leap then len + 1 else len) ≡ len + one_if (m && leap')
    as_length len m leap leap' e = rw e (ground arith)
