-- ===== src/Valves/Sequence.antt =====
-- Valves::start, stop, find_next and update (main/acionna/valves.hpp). A result of `none` is a read
-- outside `valve_`, whose effect C++ leaves open.
use acionna.Prelude.{
  ℕ, zero, suc, ◌+◌, ◌-◌, ◌*◌, Option, none, some, ◌==◌, ltb, if◌then◌else◌, ℤ, u8, u32, dec8,
}
use acionna.Types.{disable, enable, StatesValves, is_enable, is_automatic}
use acionna.Board.{Board}
use acionna.Valves.State.{
  Valves, n_valves, get_valve_programmed, get_valve_time, set_valve_state, reset_outputs,
}
use acionna.Valves.Log.{make_log, make_log_update}

infixl 5 ◌>>=◌
abbrev pub ◌>>=◌ : {A B : Type 0} → Option A → (A → Option B) → Option B
none >>= f = none
some a >>= f = f a

module _ (b : Board) where
  open b use {World}

  unfoldable pub start : Valves → World → Valves × World
  start v w =
      let r = reset_outputs b v w in
      (
        record (r.0) {
          valve_seq = 0;
          time_valve_remain = 0;
          time_valve_elapsed = 0;
          time_system_on = 0;
          state_valves = StatesValves.automatic_switch;
          flag_valve_found = disable;
          valve_current = if is_enable v.flag_inverted_sequence then n_valves + 1 else 0;
        },
        r.1,
      )

  unfoldable pub stop : ℤ → Valves → World → Valves × World
  stop pressure v w =
      let r = reset_outputs b v w in
      let v1 = r.0 in
      let v2 =
        if v1.time_valve_elapsed == 0
        then v1
        else record (make_log_update pressure v1) { time_valve_elapsed = 0 } in
      (record v2 { valve_current = 0; state_valves = StatesValves.system_off }, r.1)

  abbrev pub Found : Type 0
  Found = ℕ × (Valves × World)

  -- A programmed sector: its time, cut to whole minutes, and its valve.
  unfoldable pub open_valve : Valves → World → Found
  open_valve v w =
      let v1 = record v {
        flag_valve_found = enable;
        time_valve_remain = u32 (get_valve_time v.valve_current v * 60);
      } in
      (v.valve_current, set_valve_state b v.valve_current 1 v1 w)

  -- The end of the cycle.
  abbrev pub cycle_end : Valves → World → Found
  cycle_end v w = (
    0,
    (
      record v {
        flag_valve_found = enable;
        state_valves = StatesValves.system_off;
        valve_current = 0;
      },
      w,
    ),
  )

  -- The two loops of `find_next`. Fuel 256 is the number of values of `valve_current_`.
  unfoldable pub find_direct : ℕ → Valves → World → Option Found
  find_direct zero v w = none
  find_direct (suc fuel) v w =
      let v1 = record v { valve_current = u8 (v.valve_current + 1) } in
      let rest = find_direct fuel v1 w in
      if ltb v1.valve_current (n_valves + 1)
      then (get_valve_programmed v1.valve_current v1 >>= λ flag.
          if is_enable flag then some (open_valve v1 w) else rest)
      else some (cycle_end v1 w)

  unfoldable pub find_inverted : ℕ → Valves → World → Option Found
  find_inverted zero v w = none
  find_inverted (suc fuel) v w =
      let v1 = record v { valve_current = dec8 v.valve_current } in
      let rest = find_inverted fuel v1 w in
      if v1.valve_current == 0
      then some (cycle_end v1 w)
      else (get_valve_programmed v1.valve_current v1 >>= λ flag.
          if is_enable flag then some (open_valve v1 w) else rest)

  unfoldable pub find_next : Valves → World → Option Found
  find_next v w =
      let v1 = record v { flag_valve_found = disable } in
      if is_enable v.flag_inverted_sequence then find_inverted 256 v1 w else find_direct 256 v1 w

  -- The current sector is to be closed, at once or `time_delay_close_config` seconds later.
  unfoldable pub close_last : Valves → World → Valves × World
  close_last v w =
      let v0 = record v { valve_last_to_close = v.valve_current } in
      if is_enable v.flag_valve_delay_switch
      then (
        record v0 { flag_delay_close = enable; time_delay_close = v.time_delay_close_config },
        w,
      )
      else set_valve_state b v0.valve_last_to_close 0 v0 w

  -- What follows the call of `find_next`.
  unfoldable pub after_search : ℕ → ℤ → Found → Valves × World
  after_search now pressure r =
      if r.0 == 0
      then stop pressure r.1.0 r.1.1
      else (record (make_log now pressure r.1.0) { time_valve_elapsed = 0 }, r.1.1)

  -- The first half of `update`: the current sector's time is over.
  unfoldable pub switch_sector : ℕ → ℤ → Valves → World → Option (Valves × World)
  switch_sector now pressure v w =
      let (v1, w1) = close_last v w in find_next v1 w1 >>= λ r. some (after_search now pressure r)

  -- The delayed closing of the sector before.
  unfoldable pub delayed_close : Valves → World → Valves × World
  delayed_close v w =
      if is_enable v.flag_delay_close
      then if ltb 0 v.time_delay_close
        then (record v { time_delay_close = v.time_delay_close - 1 }, w)
        else set_valve_state b v.valve_last_to_close 0 (record v { flag_delay_close = disable }) w
      else (v, w)

  abbrev pub count_second : ℤ → Valves × World → Valves × World
  count_second pressure r =
      let v = make_log_update pressure (r.0) in
      (
        record v {
          time_valve_elapsed = u32 (v.time_valve_elapsed + 1);
          time_system_on = u32 (v.time_system_on + 1);
        },
        r.1,
      )

  unfoldable pub update : ℕ → ℤ → Valves → World → Option (Valves × World)
  update now pressure v w =
      if is_automatic v.state_valves
      then ((if v.time_valve_remain == 0
            then switch_sector now pressure v w
            else some (record v { time_valve_remain = v.time_valve_remain - 1 }, w))
          >>= λ r. some (count_second pressure (delayed_close (r.0) (r.1))))
      else some (v, w)
