-- ===== src/Controller/DayClock.antt =====
-- `time_day_sec_` counts on its own every second, while the date and time are fetched from the timer of
-- the chip.
use acionna.Prelude.{ℕ, zero, suc, ◌+◌, ◌%◌, ◌<◌, ◌≡◌, refl, sym, ◌∙◌, ap, ap₂, arith, u32}
use acionna.Clock.{DateTime, TimeFormat, get_hour}
use acionna.Clock
use acionna.Clock.Clockin.{Clockin, epoch_time, fetch, update, hour_of}
use acionna.Clock.Keeping.{
  IsKept, second_of_day, local_time, fetch-second, unix_time-second, unix_time-Before,
  epoch_time-update,
}
use acionna.Controller.State.{Acionna}
use acionna.Controller.SetClock.{take_over}
use acionna.Controller.Mode.{update_clock}
use acionna.Controller.Day.{one_second}

-- The calls of the second's update that follow one in which the timer shows `uptime`; `shown k` is what it shows
-- at the k-th of them.
abbrev pub ticks : (ℕ → ℕ) → ℕ → Acionna → Acionna
ticks shown zero a = a
ticks shown (suc n) a = update_clock (shown (suc n)) (ticks shown n a)

get_hour-h24 : (d : DateTime) → d.time_format ≡ TimeFormat.h24 → get_hour d ≡ d.hour
unfolding get_hour
get_hour-h24 d f = rw f refl

take_over-second :
    (uptime : ℕ) (c : Clockin) (a : Acionna)
    → c.dt.time_format ≡ TimeFormat.h24
    → IsKept c.dt
    → (take_over uptime c a).time_day_sec ≡ second_of_day c.dt
unfolding take_over hour_of update
take_over-second uptime c a f k =
    omega (
      arith,
      get_hour-h24 c.dt f,
      k.is_date.hour_high,
      k.is_date.minute_high,
      k.is_date.second_high,
    )

ticks-offset :
    (shown : ℕ → ℕ) (n : ℕ) (a : Acionna)
    → ((ticks shown n a).dt.time_offset ≡ a.dt.time_offset)
      × ((ticks shown n a).dt.dt.fuse_sec ≡ a.dt.dt.fuse_sec)
unfolding update_clock fetch Clock.set_unix_time
ticks-offset shown zero a = (refl, refl)
ticks-offset shown (suc n) a = ticks-offset shown n a

ticks-time_day_sec :
    (shown : ℕ → ℕ) (n : ℕ) (a : Acionna)
    → a.time_day_sec < 86400
    → (ticks shown n a).time_day_sec ≡ (a.time_day_sec + n) % 86400
ticks-time_day_sec shown zero a h = omega arith
ticks-time_day_sec shown (suc n) a h =
    let ih = ticks-time_day_sec shown n a h in
    omega (arith, ih, one_second (shown (suc n)) (ticks shown n a) (omega (arith, ih)))

ticks-second :
    (shown : ℕ → ℕ) (n : ℕ) (a : Acionna)
    → second_of_day (ticks shown (suc n) a).dt.dt ≡ local_time (shown (suc n)) a.dt % 86400
unfolding update_clock epoch_time
ticks-second shown n a =
    let o = ticks-offset shown n a in
    fetch-second (shown (suc n)) (ticks shown n a).dt
    ∙ ap₂ (λ (offset fuse : ℕ). u32 (u32 (shown (suc n) + offset) + fuse) % 86400) o.0 o.1

later :
    (uptime n : ℕ) (c : Clockin) (second : ℕ)
    → second ≡ second_of_day c.dt
    → IsKept c.dt
    → uptime + n < 4294967296
    → n < 192522496
    → (second + n) % 86400 ≡ local_time (uptime + n) (update uptime c) % 86400
unfolding update
later uptime n c second s k h few =
    let e = epoch_time-update uptime n c h in
    let m : second ≡ u32 (Clock.unix_time c.dt + c.dt.fuse_sec) % 86400 =
      s ∙ sym (unix_time-second c.dt k) in
    omega (arith, e, m, unix_time-Before c.dt k)

-- When a date and time of the years 2000 to 2099, in the 24-hour format, are taken over at `uptime`:
-- after any number of calls of `update_clock`, at least one, the last of them `lost` seconds later than
-- one call in each second would be, since `lost` seconds went by without a call, the second of the
-- day that the clock shows is `time_day_sec_`, with which the start times are compared, and the lost
-- seconds. This holds for the next six years, until the timer of the chip overflows.
pub ticks-take_over :
    (shown : ℕ → ℕ) (uptime n lost : ℕ) (c : Clockin) (a : Acionna)
    → c.dt.time_format ≡ TimeFormat.h24
    → IsKept c.dt
    → shown (suc n) ≡ uptime + suc n + lost
    → uptime + suc n + lost < 4294967296
    → suc n + lost < 192522496
    → let r = ticks shown (suc n) (take_over uptime c a) in
      (r.time_day_sec + lost) % 86400 ≡ second_of_day r.dt.dt
unfolding take_over update
ticks-take_over shown uptime n lost c a f k now h few =
    let b = take_over uptime c a in
    let s = take_over-second uptime c a f k in
    let t : (ticks shown (suc n) b).time_day_sec ≡ (b.time_day_sec + suc n) % 86400 =
      ticks-time_day_sec shown (suc n) b
        (omega (arith, s, k.is_date.hour_high, k.is_date.minute_high, k.is_date.second_high)) in
    let sum : ((ticks shown (suc n) b).time_day_sec + lost) % 86400
        ≡ (b.time_day_sec + (suc n + lost)) % 86400 =
      omega (arith, t) in
    let place : uptime + (suc n + lost) ≡ shown (suc n) = omega (arith, now) in
    sum
    ∙ later uptime (suc n + lost) c b.time_day_sec s k (omega arith) few
    ∙ ap (λ (t : ℕ). local_time t (update uptime c) % 86400) place
    ∙ sym (ticks-second shown n b)
