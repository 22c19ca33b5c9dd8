-- ===== src/TimeOps.antt =====
-- components/helper/time_operations.cpp: the comparison of dates and times, and the second of the
-- day as hour, minute and second. Of `tm` the six fields that are compared are kept.
pub mod Laws
mod Tests
use acionna.Prelude.{ℕ, ◌+◌, ◌*◌, ◌/◌, ◌%◌, ltb, if◌then◌else◌, ℤ, pos, negsuc, ltb_ℤ, u8, u16, u32}

pub record Tm : Type 0 where
  pub tm_year : ℕ
  pub tm_mon : ℕ
  pub tm_mday : ℕ
  pub tm_hour : ℕ
  pub tm_min : ℕ
  pub tm_sec : ℕ

-- The three pairs of `if`s that both comparisons are.
unfoldable pub compare_three : ℕ × ℕ × ℕ → ℕ × ℕ × ℕ → ℤ
compare_three (a, b, c) (a', b', c') =
    if ltb a a'
    then negsuc 0
    else if ltb a' a
    then pos 1
    else if ltb b b'
    then negsuc 0
    else if ltb b' b
    then pos 1
    else if ltb c c'
    then negsuc 0
    else if ltb c' c
    then pos 1
    else pos 0

unfoldable pub date_compare : Tm → Tm → ℤ
date_compare d e = compare_three (d.tm_year, d.tm_mon, d.tm_mday) (e.tm_year, e.tm_mon, e.tm_mday)

unfoldable pub time_compare : Tm → Tm → ℤ
time_compare d e = compare_three (d.tm_hour, d.tm_min, d.tm_sec) (e.tm_hour, e.tm_min, e.tm_sec)

-- The two `between` functions, after their two comparisons.
abbrev pub between : ℤ → ℤ → ℤ
between cmp0 cmp1 =
    if ltb_ℤ cmp0 (pos 0) then negsuc 0 else if ltb_ℤ (pos 0) cmp1 then pos 1 else pos 0

unfoldable pub date_between : Tm → Tm → Tm → ℤ
date_between date before after = between (date_compare date before) (date_compare date after)

unfoldable pub time_between : Tm → Tm → Tm → ℤ
time_between time before after = between (time_compare time before) (time_compare time after)

unfoldable pub timesec_to_day : ℕ → ℕ
timesec_to_day seconds = u16 (seconds / 86400)

unfoldable pub timesec_to_hour : ℕ → ℕ
timesec_to_hour seconds = u8 (seconds % 86400 / 3600)

unfoldable pub timesec_to_min : ℕ → ℕ
timesec_to_min seconds = u8 (seconds % 3600 / 60)

unfoldable pub timesec_to_sec : ℕ → ℕ
timesec_to_sec seconds = u8 (seconds % 3600 % 60)

unfoldable pub daytime_to_timesec : ℕ → ℕ → ℕ → ℕ
daytime_to_timesec hour min sec = u32 (hour * 60 * 60 + min * 60 + sec)
