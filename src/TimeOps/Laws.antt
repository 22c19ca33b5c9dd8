-- ===== src/TimeOps/Laws.antt =====
-- The order that the comparisons make, and the round trips of the second of the day.
use acionna.Prelude.{ℕ, ◌<◌, ◌≤◌, ◌≡◌, arith, ltb, if◌then◌else◌, ℤ, pos, negsuc}
use acionna.TimeOps.{
  Tm, compare_three, time_compare, timesec_to_hour, timesec_to_min, timesec_to_sec,
  daytime_to_timesec,
}

-- A time of the day.
abbrev pub IsTime : Tm → Type 0
IsTime t = (t.tm_hour ≤ 23) × (t.tm_min ≤ 59) × (t.tm_sec ≤ 59)

abbrev pub second_of : Tm → ℕ
second_of t = daytime_to_timesec t.tm_hour t.tm_min t.tm_sec

-- The sign of a comparison of two numbers.
abbrev pub sign : ℕ → ℕ → ℤ
sign a b = if ltb a b then negsuc 0 else if ltb b a then pos 1 else pos 0

-- Two times of the day compare as their seconds of the day do.
pub time_compare-sign :
    (t u : Tm) → IsTime t → IsTime u → time_compare t u ≡ sign (second_of t) (second_of u)
unfolding time_compare compare_three daytime_to_timesec
time_compare-sign t u h k = ground arith

-- A second of the day splits in an hour, a minute and a second that give it back.
pub daytime_to_timesec-split :
    (s : ℕ)
    → s < 86400
    → daytime_to_timesec (timesec_to_hour s) (timesec_to_min s) (timesec_to_sec s) ≡ s
unfolding daytime_to_timesec timesec_to_hour timesec_to_min timesec_to_sec
daytime_to_timesec-split s h = omega arith

-- A time of the day is found again in its second of the day.
pub split-daytime_to_timesec :
    (h m s : ℕ)
    → h ≤ 23
    → m ≤ 59
    → s ≤ 59
    → (timesec_to_hour (daytime_to_timesec h m s) ≡ h)
      × (timesec_to_min (daytime_to_timesec h m s) ≡ m)
      × (timesec_to_sec (daytime_to_timesec h m s) ≡ s)
unfolding daytime_to_timesec timesec_to_hour timesec_to_min timesec_to_sec
split-daytime_to_timesec h m s p q r = (omega arith, omega arith, omega arith)
