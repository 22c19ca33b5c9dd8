-- ===== src/Controller/Day.antt =====
-- The second of the day that the start times are compared with.
use acionna.Prelude.{ℕ, zero, suc, ◌+◌, ◌%◌, ◌<◌, ◌≡◌, arith}
use acionna.Controller.State.{Acionna}
use acionna.Controller.Mode.{update_clock}

abbrev seconds : ℕ → Acionna → Acionna
seconds zero a = a
seconds (suc n) a = update_clock n (seconds n a)

pub one_second :
    (now : ℕ) (a : Acionna)
    → a.time_day_sec < 86400
    → (update_clock now a).time_day_sec ≡ (a.time_day_sec + 1) % 86400
unfolding update_clock
one_second now a h = ground arith

-- From a second of the day, n calls of `update_clock` add n seconds modulo a day: the count wraps at
-- midnight and never leaves the range that start times are chosen from.
update_clock-seconds :
    (n : ℕ) (a : Acionna)
    → a.time_day_sec < 86400
    → ((seconds n a).time_day_sec ≡ (a.time_day_sec + n) % 86400)
      × ((seconds n a).time_day_sec < 86400)
update_clock-seconds zero a h = (omega arith, h)
update_clock-seconds (suc n) a h =
    let ih = update_clock-seconds n a h in
    (
      omega (arith, one_second n (seconds n a) ih.1, ih.0),
      omega (arith, one_second n (seconds n a) ih.1),
    )
