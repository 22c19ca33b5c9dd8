-- ===== src/Clock/Keeping.antt =====
-- What `fetch` finds of the date and time that `update` took over.
use acionna.Prelude.{ℕ, ◌+◌, ◌*◌, ◌%◌, ◌≤◌, ◌<◌, ◌≡◌, sym, ◌∙◌, ap, arith, u32}
use acionna.Clock.{DateTime}
use acionna.Clock
use acionna.Clock.Laws.{IsDate, set_unix_time-second}
use acionna.Clock.RoundTrip.{unix_time-set_unix_time}
use acionna.Clock.Inverse.{set_unix_time-unix_time}
use acionna.Clock.Clockin.{Clockin, epoch_time, fetch, update}

-- A date and a time that the device can keep: of the years 2000 to 2099.
pub record IsKept (d : DateTime) : Type 0 where
  pub is_date : IsDate d
  pub low : 2000 ≤ d.year
  pub high : d.year < 2100
  pub fuse : d.fuse_sec < 4294967296

abbrev pub second_of_day : DateTime → ℕ
second_of_day d = d.hour * 3600 + d.minute * 60 + d.second

abbrev pub local_time : ℕ → Clockin → ℕ
local_time uptime c = u32 (epoch_time uptime c + c.dt.fuse_sec)

unix_time-Word : (d : DateTime) → Clock.unix_time d < 4294967296
unfolding Clock.unix_time
unix_time-Word d = omega arith

pub epoch_time-update :
    (uptime s : ℕ) (c : Clockin)
    → uptime + s < 4294967296
    → epoch_time (uptime + s) (update uptime c) ≡ u32 (Clock.unix_time c.dt + s)
unfolding epoch_time update
epoch_time-update uptime s c h = omega (arith, unix_time-Word c.dt)

epoch_time-update_now :
    (uptime : ℕ) (c : Clockin)
    → uptime < 4294967296
    → epoch_time uptime (update uptime c) ≡ Clock.unix_time c.dt
unfolding epoch_time update
epoch_time-update_now uptime c h = omega (arith, unix_time-Word c.dt)

pub fetch-second :
    (uptime : ℕ) (c : Clockin) → second_of_day (fetch uptime c).dt ≡ local_time uptime c % 86400
unfolding fetch
fetch-second uptime c = (set_unix_time-second (epoch_time uptime c) c.dt).0

pub unix_time-second :
    (d : DateTime) → IsKept d → u32 (Clock.unix_time d + d.fuse_sec) % 86400 ≡ second_of_day d
unix_time-second d k =
    sym (set_unix_time-second (Clock.unix_time d) d).0
    ∙ ap second_of_day (set_unix_time-unix_time d k.is_date k.low k.high k.fuse)

pub unix_time-Before : (d : DateTime) → IsKept d → u32 (Clock.unix_time d + d.fuse_sec) < 4102444800
unfolding Clock.set_unix_time
unix_time-Before d k =
    let e : (Clock.set_unix_time (Clock.unix_time d) d).year ≡ d.year =
      ap (λ (x : DateTime). x.year) (set_unix_time-unix_time d k.is_date k.low k.high k.fuse) in
    omega (arith, e, k.high)

-- A date and time of the years 2000 to 2099 that `update` takes over is the one that `fetch` finds in
-- the same second.
pub fetch-update :
    (uptime : ℕ) (c : Clockin)
    → uptime < 4294967296
    → IsKept c.dt
    → (fetch uptime (update uptime c)).dt ≡ c.dt
unfolding fetch update
fetch-update uptime c h k =
    ap (λ (t : ℕ). Clock.set_unix_time t c.dt) (epoch_time-update_now uptime c h)
    ∙ set_unix_time-unix_time c.dt k.is_date k.low k.high k.fuse

-- Seconds later, `fetch` finds a date and time which is that many seconds after the one that `update`
-- took over, while it is one of the years 2000 to 2099; and `unix_time()` of the clock says the same.
pub fetch-update_later :
    (uptime s : ℕ) (c : Clockin)
    → uptime + s < 4294967296
    → c.dt.fuse_sec < 4294967296
    → 946684800 ≤ u32 (Clock.unix_time c.dt + s + c.dt.fuse_sec)
    → u32 (Clock.unix_time c.dt + s + c.dt.fuse_sec) < 4102444800
    → let r = fetch (uptime + s) (update uptime c) in
      (Clock.unix_time r.dt ≡ u32 (Clock.unix_time c.dt + s))
      × (r.unix_time ≡ u32 (Clock.unix_time c.dt + s))
unfolding fetch update
fetch-update_later uptime s c h hf low high =
    let e = epoch_time-update uptime s c h in
    let ut : ℕ = Clock.unix_time c.dt in
    (
      ap (λ (t : ℕ). Clock.unix_time (Clock.set_unix_time t c.dt)) e
          ∙ unix_time-set_unix_time (u32 (ut + s)) c.dt (omega arith) hf (omega arith)
              (omega arith),
      e,
    )
