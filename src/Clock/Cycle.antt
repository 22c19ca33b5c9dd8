-- ===== src/Clock/Cycle.antt =====
-- The calendar of `unix_time(ut)` repeats every four years: month and day depend on the place `r` of
-- the day among the 1461 days of the cycle that starts in 1970, 1974, ...
use acionna.Prelude.{
  ℕ, all_below, all_below_sound, ltb, ◌+◌, ◌-◌, ◌*◌, ◌/◌, ◌%◌, ◌≤◌, ◌<◌, ◌≡◌, refl, true, arith,
  ◌==◌, ◌&&◌, if◌then◌else◌, bit_and, u8, Bool,
}
use acionna.Bits.{and_mask}
use acionna.Clock.{leap_year, days_before}

abbrev pub one_if : Bool → ℕ
one_if c = if c then 1 else 0

abbrev pub leap_of : ℕ → ℕ
leap_of year = one_if (bit_and year 3 == 0)

abbrev pub padded : ℕ → ℕ → ℕ
padded leap left = if ltb (58 + leap) left then (if leap == 1 then left + 1 else left + 2) else left

abbrev pub month_of : ℕ → ℕ
month_of in_year = u8 ((in_year * 12 + 6) / 367 + 1)

abbrev pub day_of : ℕ → ℕ
day_of in_year = u8 (in_year + 1 - ((month_of in_year - 1) * 367 + 5) / 12)

-- The year of the cycle; the third one is the leap year.
abbrev pub cycle_year : ℕ → ℕ
cycle_year r = (r * 4 + 2) / 1461

abbrev pub cycle_place : ℕ → ℕ
cycle_place r = padded (one_if (cycle_year r == 2)) (r - (cycle_year r * 1461 + 1) / 4)

abbrev pub leap_day : ℕ → Bool → ℕ
leap_day month leap = one_if (ltb 2 month && leap)

abbrev pub day_number : ℕ → ℕ
day_number r =
    let n = cycle_place r in
    day_of n + days_before (month_of n - 1) + leap_day (month_of n) (cycle_year r == 2)

abbrev counted : ℕ → Bool
counted r = day_number r + cycle_year r * 365 + (cycle_year r + 1) / 4 == r + 1

whole_cycle : all_below 1461 counted ≡ true
unfolding all_below days_before
whole_cycle = refl

pub day_number-cycle :
    (r : ℕ) → r < 1461 → day_number r + cycle_year r * 365 + (cycle_year r + 1) / 4 ≡ r + 1
day_number-cycle r h = of_eqb (all_below_sound counted 1461 r h whole_cycle)
  where
    of_eqb : {a b : ℕ} → (a == b) ≡ true → a ≡ b
    of_eqb e = ground arith

pub leap_year_century : (y : ℕ) → 2000 ≤ y → y < 2100 → leap_year y ≡ (y % 4 == 0)
unfolding leap_year
leap_year_century y h h' = ground arith

pub leap_of-cycle :
    (k r : ℕ) → leap_of (1970 + k * 4 + cycle_year r) ≡ one_if ((2 + cycle_year r) % 4 == 0)
leap_of-cycle k r = rw (and_mask 2 (1970 + k * 4 + cycle_year r)) (ground arith)
