-- ===== src/Clock/Clockin.antt =====
-- Class Clockin (components/clock/include/clockin.hpp): the date and time of the device, kept as an
-- offset to the seconds that the microcontroller has been up. `uptime` is what SYS_Time::uptime_sec
-- reads from the timer of the chip at the call. `init` and `select_source` have empty bodies.
use acionna.Prelude.{ℕ, ◌+◌, ◌-◌, u32}
use acionna.Clock.{
  DateTime, DayPeriod, get_hour, set_year, set_month, set_day, set_hour, set_minute, set_second,
}
use acionna.Clock

pub record Clockin : Type 0 where
  pub dt : DateTime
  pub time_offset : ℕ
  pub unix_time : ℕ

-- The constructor leaves `time_offset_` and `unix_time_` unset until the first `update` and `fetch`; the
-- model starts them at 0.
abbrev pub new : Clockin
new = record { dt = Clock.new; time_offset = 0; unix_time = 0 }

abbrev pub with_dt : (DateTime → DateTime) → Clockin → Clockin
with_dt f c = record c { dt = f c.dt }

unfoldable pub epoch_time : ℕ → Clockin → ℕ
epoch_time uptime c = u32 (uptime + c.time_offset)

unfoldable pub fetch : ℕ → Clockin → Clockin
fetch uptime c = record c {
  unix_time = epoch_time uptime c;
  dt = Clock.set_unix_time (epoch_time uptime c) c.dt;
}

unfoldable pub update : ℕ → Clockin → Clockin
update uptime c = record c { time_offset = u32 (Clock.unix_time c.dt + (4294967296 - uptime)) }

-- unix_time(ut)
unfoldable pub set_unix_time : ℕ → Clockin → Clockin
set_unix_time ut = with_dt (Clock.set_unix_time ut)

unfoldable pub year : ℕ → Clockin → Clockin
year yr = with_dt (set_year yr)

unfoldable pub month : ℕ → Clockin → Clockin
month mo = with_dt (set_month mo)

unfoldable pub day : ℕ → Clockin → Clockin
day da = with_dt (set_day da)

unfoldable pub hour : ℕ → Clockin → Clockin
hour hou = with_dt (set_hour hou DayPeriod.nd)

unfoldable pub minute : ℕ → Clockin → Clockin
minute min = with_dt (set_minute min)

unfoldable pub second : ℕ → Clockin → Clockin
second sec = with_dt (set_second sec)

unfoldable pub date : ℕ → ℕ → ℕ → Clockin → Clockin
date yr mo da c = day da (month mo (year yr c))

unfoldable pub time : ℕ → ℕ → ℕ → Clockin → Clockin
time hou min sec c = second sec (minute min (hour hou c))

unfoldable pub date_time : ℕ → ℕ → ℕ → ℕ → ℕ → ℕ → Clockin → Clockin
date_time yr mo da hou min sec c = time hou min sec (date yr mo da c)

-- What `hour()` reads.
unfoldable pub hour_of : Clockin → ℕ
hour_of c = get_hour c.dt
