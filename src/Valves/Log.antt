-- ===== src/Valves/Log.antt =====
-- The running log of class Valves (main/acionna/valves.hpp). `pressure` is what `*pressure_mca_`
-- holds and `now` what `*epoch_time_` holds.
use acionna.Prelude.{
  ℕ, ◌+◌, ◌/◌, List, [], ◌∷◌, ℤ, pos, negsuc, ◌+ℤ◌, sub_ℕ, ltb_ℤ, if◌then◌else◌, set, get_or, u16,
}
use acionna.History.{shift_down, slot}
use acionna.Valves.State.{Valves, LogValve, empty_log}

-- `a / 30` in C, which rounds towards 0.
abbrev pub div_30 : ℤ → ℤ
div_30 (pos n) = pos (n / 30)
div_30 (negsuc n) = sub_ℕ 0 ((n + 1) / 30)

unfoldable pub sum : List ℤ → ℤ
sum [] = pos 0
sum (x ∷ xs) = x +ℤ sum xs

-- `pressure_avg()` also moves the samples along.
abbrev pub sampled : ℤ → Valves → Valves
sampled pressure v = record v {
  press_vec = set (shift_down slot (pos 0) 29 v.press_vec) 0 pressure;
}

unfoldable pub pressure_avg : ℤ → Valves → ℤ × Valves
pressure_avg pressure v = let v' = sampled pressure v in (div_30 (sum v'.press_vec), v')

-- The body of the shift loop of `make_log`: its last line writes `pressure_min`, not
-- `pressure_max`.
abbrev pub copy_log : LogValve → LogValve → LogValve
copy_log old previous = record {
  valve_id = previous.valve_id;
  started_time = previous.started_time;
  elapsed_time = previous.elapsed_time;
  pressure_max = old.pressure_max;
  pressure_min = previous.pressure_max;
  pressure_avg = previous.pressure_avg;
}

unfoldable pub make_log : ℕ → ℤ → Valves → Valves
make_log now pressure v =
    let log = shift_down copy_log empty_log 14 v.log_valves in
    let (average, v1) = pressure_avg pressure v in
    let (low, v2) = pressure_avg pressure v1 in
    let (high, v3) = pressure_avg pressure v2 in
    let entry : LogValve = record {
      valve_id = v.valve_current;
      started_time = now;
      elapsed_time = 0;
      pressure_max = high;
      pressure_min = low;
      pressure_avg = average;
    } in
    record v3 { log_valves = set log 0 entry }

unfoldable pub make_log_update : ℤ → Valves → Valves
make_log_update pressure v =
    let (average, v1) = pressure_avg pressure v in
    let first = get_or v.log_valves 0 empty_log in
    let low = first.pressure_min in
    let high = first.pressure_max in
    record v1 {
      log_valves = set v.log_valves 0 (record first {
        elapsed_time = u16 v.time_valve_elapsed;
        pressure_avg = average;
        pressure_min = if ltb_ℤ pressure low then pressure else low;
        pressure_max = if ltb_ℤ high pressure then pressure else high;
      });
    }
