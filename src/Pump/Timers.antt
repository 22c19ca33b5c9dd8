-- ===== src/Pump/Timers.antt =====
-- The second counters of Pump::update_time_.
use acionna.Prelude.{
  ℕ, zero, suc, ◌+◌, ◌-◌, ◌<◌, ◌≡◌, refl, ◌⊎◌, Bool-cases, inl, inr, true, false, arith,
  if◌then◌else◌, u32, ◌==◌, length, get_or, get_or-set_self, take, ◌∷◌,
}
use acionna.History.{shift_down_prepends}
use acionna.Types.{disable, enable, StartTypes, StopTypes}
use acionna.Pump.State.{Pump, LogMotor, empty_log, log_n}
use acionna.Pump.Stop.{make_log_update, make_log_start, make_log_stop}
use acionna.Pump.Update.{is_running, update_time, update_run_time, update_wait_time}

-- What a second does to the run counters.
abbrev pub Counted : Pump → Pump → Type 0
Counted p q =
    ((is_running p.state_motor ≡ true)
      × (q.time_on ≡ u32 (p.time_on + 1))
      × (q.time_to_shutdown ≡ p.time_to_shutdown - 1)
      × (q.time_off ≡ p.time_off)
      × ((get_or q.log_motors 0 empty_log).time_elapsed_on ≡ q.time_on))
    ⊎ ((is_running p.state_motor ≡ false)
        × (q.time_on ≡ p.time_on)
        × (q.time_to_shutdown ≡ p.time_to_shutdown)
        × (q.time_off ≡ u32 (p.time_off + 1))
        × (q.log_motors ≡ p.log_motors))

update_run_time-Counted : (p : Pump) → 0 < length p.log_motors → Counted p (update_run_time p)
unfolding update_run_time make_log_update
update_run_time-Counted p h = elim (Bool-cases (is_running p.state_motor)) [
  | inr e ↦ rw e (inr (refl, refl, refl, refl, refl))
  | inl e ↦
      let first : LogMotor = get_or p.log_motors 0 empty_log in
      let slot0 =
        get_or-set_self p.log_motors 0 (record first { time_elapsed_on = u32 (p.time_on + 1) })
          empty_log h in
      rw e (ground (arith, slot0))
]

update_wait_time_keeps :
    (p : Pump)
    → let q = update_wait_time p in
      (q.time_on ≡ p.time_on)
      × (q.time_to_shutdown ≡ p.time_to_shutdown)
      × (q.time_off ≡ p.time_off)
      × (q.log_motors ≡ p.log_motors)
unfolding update_wait_time
update_wait_time_keeps p = ground arith

-- With a log that is not empty, a second with the motor running adds one to the time on, takes one
-- from the shutdown time unless that is 0, shows the new time on in the newest log entry, and leaves
-- the time off. A second without adds one to the time off, and leaves the other times and the log.
pub update_time-Counted : (p : Pump) → 0 < length p.log_motors → Counted p (update_time p)
unfolding update_time
update_time-Counted p h =
    ground (arith, update_run_time-Counted p h, update_wait_time_keeps (update_run_time p))

update_time_wait :
    (p : Pump)
    → p.flag_check_wait_power_on ≡ enable
    → let q = update_time p in
      (q.time_wait_power_on ≡ p.time_wait_power_on - 1)
      × (q.flag_check_wait_power_on ≡ (if p.time_wait_power_on == 0 then disable else enable))
unfolding update_time update_run_time update_wait_time make_log_update
update_time_wait p f = ground arith

-- `n` seconds.
pub seconds : ℕ → Pump → Pump
seconds zero p = p
seconds (suc n) p = seconds n (update_time p)

-- The wait after a stop ends by itself: a counter of `n` reaches 0 with the flag still set after
-- `n` seconds, and the second after that clears the flag.
wait_power_on_ends :
    (n : ℕ) (p : Pump)
    → p.time_wait_power_on ≡ n
    → p.flag_check_wait_power_on ≡ enable
    → ((seconds n p).flag_check_wait_power_on ≡ enable)
      × ((seconds n p).time_wait_power_on ≡ 0)
      × ((seconds (suc n) p).flag_check_wait_power_on ≡ disable)
unfolding seconds
wait_power_on_ends zero p e f = ground (arith, update_time_wait p f)
wait_power_on_ends (suc n) p e f =
    let (c, g) = update_time_wait p f in
    wait_power_on_ends n (update_time p) (omega arith) (ground arith)

-- A start's entry goes in front of the log, and the oldest of the fifteen goes.
make_log_start_prepends :
    (mode : StartTypes) (now : ℕ) (p : Pump)
    → length p.log_motors ≡ log_n
    → (make_log_start mode now p).log_motors
      ≡ record {
        start_mode = mode;
        time_start = now;
        time_elapsed_on = 0;
        stop_reason = StopTypes.other;
      }
        ∷ take 14 p.log_motors
unfolding make_log_start
make_log_start_prepends mode now p h = shift_down_prepends empty_log 14 _ p.log_motors h

-- A start and the stop that ends its run leave one complete entry in front of the log; the oldest
-- of the fifteen entries goes.
pub make_log_stop-make_log_start :
    (mode : StartTypes) (reason : StopTypes) (now elapsed : ℕ) (p : Pump)
    → length p.log_motors ≡ log_n
    → (make_log_stop reason elapsed (make_log_start mode now p)).log_motors
      ≡ record {
        start_mode = mode;
        time_start = now;
        time_elapsed_on = elapsed;
        stop_reason = reason;
      }
        ∷ take 14 p.log_motors
unfolding make_log_stop
make_log_stop-make_log_start mode reason now elapsed p h = rw (make_log_start_prepends mode now p h)
