-- ===== src/Clock/RoundTrip.antt =====
-- The seconds that `unix_time()` counts are those that `unix_time(ut)` took apart.
use acionna.Prelude.{
  ℕ, ◌+◌, ◌-◌, ◌*◌, ◌/◌, ◌%◌, ◌≤◌, ◌<◌, ◌≡◌, ◌∙◌, ap, ap₂, arith, ◌==◌, u16, u32, ltb, ◌&&◌, Bool,
  true, false, if◌then◌else◌,
}
use acionna.Clock.{DateTime, set_unix_time, unix_time, add_years, days_before, leap_year}
use acionna.Clock.Cycle.{
  one_if, leap_of, padded, month_of, day_of, cycle_year, cycle_place, leap_day, day_number-cycle,
  leap_year_century, leap_of-cycle,
}

-- The 16-bit sums lose nothing.
count_lem :
    (s year n : ℕ) (c : Bool)
    → 2000 ≤ year
    → s + one_if c + 365 * (year - 2000) + (year - 2000 + 3) / 4 ≡ n + 1
    → n < 65535
    → add_years (if c then u16 (u16 s + 1) else u16 s) year ≡ n
count_lem s year n true low e h = ground arith
count_lem s year n false low e h = ground arith

-- The days since 2000 where the day of the year and the leap days of the years before agree.
pub unix_time_days :
    (n : ℕ) (d : DateTime)
    → 2000 ≤ d.year
    → d.day
        + days_before (d.month - 1)
        + leap_day d.month (leap_year d.year)
        + 365 * (d.year - 2000)
        + (d.year - 2000 + 3) / 4
      ≡ n + 1
    → n < 65535
    → unix_time d
      ≡ u32 (
          ((n * 24 + d.hour) * 60 + d.minute) * 60
          + d.second
          + (4294967296 - d.fuse_sec)
          + 946684800)
unfolding unix_time
unix_time_days n d low e h =
    let q =
      count_lem (d.day + days_before (d.month - 1)) d.year n (ltb 2 d.month && leap_year d.year) low
        e h in
    ap
      (λ (t : ℕ). u32 (
        ((t * 24 + d.hour) * 60 + d.minute) * 60
        + d.second
        + (4294967296 - d.fuse_sec)
        + 946684800))
      q

pub year_lem :
    (days : ℕ)
    → days < 47482
    → u16 ((days * 4 + 2) / 1461 + 1970) ≡ 1970 + (days / 1461) * 4 + cycle_year (days % 1461)
year_lem days h = omega arith

left_lem :
    (days : ℕ)
    → days - ((days * 4 + 2) / 1461 * 1461 + 1) / 4
      ≡ days % 1461 - (cycle_year (days % 1461) * 1461 + 1) / 4
left_lem days = omega arith

leap_lem :
    (days : ℕ)
    → leap_of (1970 + (days / 1461) * 4 + cycle_year (days % 1461))
      ≡ one_if (cycle_year (days % 1461) == 2)
leap_lem days =
    leap_of-cycle (days / 1461) (days % 1461) ∙ two (cycle_year (days % 1461)) (omega arith)
  where
    two : (y : ℕ) → y < 4 → one_if ((2 + y) % 4 == 0) ≡ one_if (y == 2)
    two y h = ground arith

-- The day within the year, the year and the place in the cycle.
pub place_lem :
    (days : ℕ)
    → days < 47482
    → padded
        (leap_of (u16 ((days * 4 + 2) / 1461 + 1970)))
        (days - ((days * 4 + 2) / 1461 * 1461 + 1) / 4)
      ≡ cycle_place (days % 1461)
place_lem days h = ap₂ padded (ap leap_of (year_lem days h) ∙ leap_lem days) (left_lem days)

-- What `unix_time()` counts for the day at this place of a year.
abbrev since_2000 : ℕ → ℕ → ℕ
since_2000 place year =
    day_of place
    + days_before (month_of place - 1)
    + leap_day (month_of place) (leap_year year)
    + 365 * (year - 2000)
    + (year - 2000 + 3) / 4

since_2000_lem :
    (k r : ℕ)
    → r < 1461
    → 10957 ≤ k * 1461 + r
    → k * 1461 + r < 47482
    → since_2000 (cycle_place r) (1970 + k * 4 + cycle_year r) ≡ k * 1461 + r - 10957 + 1
since_2000_lem k r h low high =
    let l : leap_year (1970 + k * 4 + cycle_year r) ≡ (cycle_year r == 2) =
      leap_year_century (1970 + k * 4 + cycle_year r) (omega arith) (omega arith)
      ∙ third k (cycle_year r) (omega arith) in
    rw l (omega (arith, day_number-cycle r h))
  where
    third : (k y : ℕ) → y < 4 → ((1970 + k * 4 + y) % 4 == 0) ≡ (y == 2)
    third k y h = ground arith

-- From 2000 to 2099 the clock counts the second that it was set to.
pub unix_time-set_unix_time :
    (ut : ℕ) (d : DateTime)
    → ut < 4294967296
    → d.fuse_sec < 4294967296
    → 946684800 ≤ (ut + d.fuse_sec) % 4294967296
    → (ut + d.fuse_sec) % 4294967296 < 4102444800
    → unix_time (set_unix_time ut d) ≡ ut
unfolding set_unix_time
unix_time-set_unix_time ut d h hf low high =
    let days : ℕ = (ut + d.fuse_sec) % 4294967296 / 86400 in
    let counted : since_2000 (cycle_place (days % 1461))
          (1970 + days / 1461 * 4 + cycle_year (days % 1461))
        ≡ days - 10957 + 1 =
      since_2000_lem (days / 1461) (days % 1461) (omega arith) (omega arith) (omega arith)
      ∙ omega arith in
    unix_time_days (days - 10957) (set_unix_time ut d) (omega arith)
      (ap₂ since_2000 (place_lem days (omega arith)) (year_lem days (omega arith)) ∙ counted)
      (omega arith)
    ∙ omega arith
