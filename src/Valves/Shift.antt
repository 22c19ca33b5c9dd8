-- ===== src/Valves/Shift.antt =====
-- What the history and the configured times of the sectors keep.
use acionna.Prelude.{
  ℕ, zero, suc, ◌/◌, ◌<◌, ◌≤◌, ◌≡◌, ◌≢◌, sym, ap, ◌∙◌, arith, ℤ, length, get_or, get_or-set_self,
  get_or-set_ne,
}
use acionna.History.{shift_down, shift_down_slot}
use acionna.Valves.State.{
  Valves, LogValve, Sector, empty_log, empty_sector, log_n, set_valve_time, get_valve_time,
}
use acionna.Valves.Log.{make_log, pressure_avg, copy_log}

module _ (now : ℕ) (p : ℤ) (v : Valves) (l : length v.log_valves ≡ log_n) where
  abbrev after : ℕ → LogValve
  after j = get_or (make_log now p v).log_valves j empty_log

  abbrev before : ℕ → LogValve
  before j = get_or v.log_valves j empty_log

  moved : (j : ℕ) → j < 14 → after (suc j) ≡ copy_log (before (suc j)) (before j)
  unfolding make_log pressure_avg
  moved j h =
      get_or-set_ne (shift_down copy_log empty_log 14 v.log_valves) 0 (suc j) _ empty_log
        (omega arith)
      ∙ shift_down_slot copy_log empty_log 14 j v.log_valves h (omega arith)

  -- In a log of fifteen entries, a new entry moves the others one slot on, but not their pressures: in each slot but
  -- the first, the least pressure becomes the greatest one of the slot before, and the greatest
  -- pressure stays where it was.
  pub make_log-pressures :
      (j : ℕ)
      → j < 14
      → ((after (suc j)).valve_id ≡ (before j).valve_id)
        × ((after (suc j)).started_time ≡ (before j).started_time)
        × ((after (suc j)).elapsed_time ≡ (before j).elapsed_time)
        × ((after (suc j)).pressure_min ≡ (before j).pressure_max)
        × ((after (suc j)).pressure_max ≡ (before (suc j)).pressure_max)
  make_log-pressures j h =
      let e = moved j h in
      (
        ap (λ (x : LogValve). x.valve_id) e,
        ap (λ (x : LogValve). x.started_time) e,
        ap (λ (x : LogValve). x.elapsed_time) e,
        ap (λ (x : LogValve). x.pressure_min) e,
        ap (λ (x : LogValve). x.pressure_max) e,
      )

-- With the eleven sectors, the minutes set for one are read back, and the other sectors' stay.
get_valve_time-set_valve_time :
    (id other value : ℕ) (v : Valves)
    → length v.valve ≡ 11
    → 0 < id
    → id ≤ 11
    → 0 < other
    → other ≢ id
    → (get_valve_time id (set_valve_time id value v) ≡ value)
      × (get_valve_time other (set_valve_time id value v) ≡ get_valve_time other v)
unfolding get_valve_time set_valve_time
get_valve_time-set_valve_time zero other value v l h h' g n = absurd (omega arith)
get_valve_time-set_valve_time (suc i) zero value v l h h' g n = absurd (omega arith)
get_valve_time-set_valve_time (suc i) (suc j) value v l h h' g n = (
  ap (λ (s : Sector). s.time_elapsed_cfg / 60)
        (get_or-set_self v.valve i _ empty_sector (omega arith))
      ∙ omega arith,
  ap (λ (s : Sector). s.time_elapsed_cfg / 60)
      (get_or-set_ne v.valve i j _ empty_sector (λ e. n (ap suc (sym e)))),
)
