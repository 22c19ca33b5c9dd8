-- ===== src/Valves/State.antt =====
-- The data of class Valves (main/acionna/valves.hpp) and its getters and setters. The flow rate,
-- the volume and the rain of a sector are `float` values, by their bits.
use acionna.Prelude.{
  ℕ, zero, suc, ◌+◌, ◌*◌, ◌/◌, not, ◌&&◌, List, [], ◌∷◌, Option, none, some, ◌==◌, leb,
  if◌then◌else◌, ℤ, pos, replicate, get_or, get_elem?, set, u32,
}
use acionna.Types.{StatesFlag, disable, enable, StatesSwitch, off, on, StatesValves, is_enable}
use acionna.Board.{Board, Fpu}
use acionna.Valves.Flow.{calc_flow_by_press, volume_of, time_of}
use acionna.Expander
use acionna.Expander.{Expander}

abbrev pub n_valves : ℕ
n_valves = 11

abbrev pub log_n : ℕ
log_n = 15

abbrev pub press_vec_n : ℕ
press_vec_n = 30

-- An element of `valve_`. Times in seconds, pressures in metres of water, the area in m2, the flow in
-- m3/h, the volume in m3 and the rain in mm.
pub record Sector : Type 0 where
  pub programmed : StatesFlag
  pub time_elapsed_cfg : ℕ
  pub pressure_exp : ℕ
  pub area : ℕ
  pub flow : ℕ
  pub volume : ℕ
  pub rain_mm : ℕ

-- An element of `log_valves`.
pub record LogValve : Type 0 where
  pub valve_id : ℕ
  pub started_time : ℕ
  pub elapsed_time : ℕ
  pub pressure_max : ℤ
  pub pressure_min : ℤ
  pub pressure_avg : ℤ

abbrev pub empty_sector : Sector
empty_sector = record {
  programmed = enable;
  time_elapsed_cfg = 0;
  pressure_exp = 0;
  area = 0;
  flow = 0;
  volume = 0;
  rain_mm = 0;
}

abbrev pub empty_log : LogValve
empty_log = record {
  valve_id = 0;
  started_time = 0;
  elapsed_time = 0;
  pressure_max = pos 0;
  pressure_min = pos 0;
  pressure_avg = pos 0;
}

pub record Valves : Type 0 where
  pub time_valve_remain : ℕ
  pub flag_inverted_sequence : StatesFlag
  pub flag_valve_delay_switch : StatesFlag
  pub log_valves : List LogValve
  pub valve_current : ℕ
  pub valve_last_to_close : ℕ
  pub valve_seq : ℕ
  pub load : Expander
  pub state_valves : StatesValves
  pub valve : List Sector
  pub press_vec : List ℤ
  pub time_system_on : ℕ
  pub time_valve_elapsed : ℕ
  pub time_delay_close : ℕ
  pub time_delay_close_config : ℕ
  pub flag_valve_found : StatesFlag
  pub flag_delay_close : StatesFlag

-- `valve_[id-1]`. There is no sector 0: a command that would write it has no result (Controller/Sectors),
-- and what a read of it gives is only shown.
abbrev pub sector : ℕ → Valves → Sector
sector zero v = empty_sector
sector (suc i) v = get_or v.valve i empty_sector

abbrev pub update_sector : ℕ → Sector → Valves → Valves
update_sector zero s v = v
update_sector (suc i) s v = record v { valve = set v.valve i s }

-- value*60.0
unfoldable pub set_valve_time : ℕ → ℕ → Valves → Valves
set_valve_time id value v =
    update_sector id (record (sector id v) { time_elapsed_cfg = value * 60 }) v

-- time_elapsed_cfg/60.0, truncated.
unfoldable pub get_valve_time : ℕ → Valves → ℕ
get_valve_time id v = (sector id v).time_elapsed_cfg / 60

unfoldable pub set_valve_pressure : ℕ → ℕ → Valves → Valves
set_valve_pressure id value v = update_sector id (record (sector id v) { pressure_exp = value }) v

unfoldable pub set_valve_area : ℕ → ℕ → Valves → Valves
set_valve_area id value v = update_sector id (record (sector id v) { area = value }) v

unfoldable pub set_valve_rain_mm : ℕ → ℕ → Valves → Valves
set_valve_rain_mm r_mm id v = update_sector id (record (sector id v) { rain_mm = r_mm }) v

unfoldable pub add : ℕ → Valves → Valves
add id v = update_sector id (record (sector id v) { programmed = enable }) v

unfoldable pub remove : ℕ → Valves → Valves
remove id v = update_sector id (record (sector id v) { programmed = disable }) v

-- `valve_[_valve_num-1].programmed`: `none` is a read outside the array.
abbrev pub get_valve_programmed : ℕ → Valves → Option StatesFlag
get_valve_programmed zero v = none
get_valve_programmed (suc i) v = elim (get_elem? v.valve i) [
  | none ↦ none
  | some s ↦ some s.programmed
]

-- The loop of `get_total_time_programmed`.
unfoldable pub total_time : List Sector → ℕ
total_time [] = 0
total_time (s ∷ ss) =
    if is_enable s.programmed then s.time_elapsed_cfg + total_time ss else total_time ss

unfoldable pub get_total_time_programmed : Valves → ℕ
get_total_time_programmed v = u32 (total_time v.valve)

unfoldable pub next_forced : Valves → Valves
next_forced v = record v { time_valve_remain = 0 }

-- for(int i=0; i<n; i++) f(i+1);
unfoldable pub for_all : (ℕ → Valves → Valves) → ℕ → Valves → Valves
for_all f zero v = v
for_all f (suc n) v = f (suc n) (for_all f n v)

unfoldable pub calc_valve_flow : Fpu → ℕ → Valves → Valves
calc_valve_flow f id v =
    let s = sector id v in
    update_sector id (record s { flow = calc_flow_by_press f (f.float_of (pos (s.pressure_exp))) })
      v

unfoldable pub calc_time_by_rain_mm : Fpu → ℕ → Valves → Valves
calc_time_by_rain_mm f id v =
    let s = sector id v in
    let volume = volume_of f s.rain_mm s.area in
    update_sector id (record s { volume = volume; time_elapsed_cfg = time_of f volume s.flow }) v

-- The sectors' values that `init_valve_parameters` sets first: minutes, pressure, area.
abbrev sector_of : ℕ → ℕ → ℕ → Sector
sector_of minutes pressure area = record {
  programmed = enable;
  time_elapsed_cfg = minutes * 60;
  pressure_exp = pressure;
  area = area;
  flow = 0;
  volume = 0;
  rain_mm = 0;
}

abbrev pub sectors : List Sector
sectors =
    sector_of 50 57 7476
    ∷ sector_of 45 59 6468
    ∷ sector_of 45 61 6468
    ∷ sector_of 30 62 4326
    ∷ sector_of 30 62 4326
    ∷ sector_of 28 66 3620
    ∷ sector_of 30 63 4326
    ∷ sector_of 30 63 4326
    ∷ sector_of 30 64 4326
    ∷ sector_of 30 64 4326
    ∷ sector_of 30 64 4326
    ∷ []

-- The members' initial values, with the times, pressures and areas of the sectors.
abbrev first : Valves
first = record {
  time_valve_remain = 0;
  flag_inverted_sequence = disable;
  flag_valve_delay_switch = enable;
  log_valves = replicate log_n empty_log;
  valve_current = 0;
  valve_last_to_close = 0;
  valve_seq = 0;
  load = Expander.new;
  state_valves = StatesValves.system_off;
  valve = sectors;
  press_vec = replicate press_vec_n (pos 0);
  time_system_on = 0;
  time_valve_elapsed = 0;
  time_delay_close = 0;
  time_delay_close_config = 30;
  flag_valve_found = disable;
  flag_delay_close = disable;
}

-- The constructor with `init_valve_parameters`. Its `remove(12)` sets the `programmed` of `valve_[11]`,
-- outside the array: that is the first member, so it lies over the member after the array,
-- `sequence_vec_[0]`, which only `find_next_in_sequence` reads, that nothing calls.
unfoldable pub new : Fpu → Valves
new f =
    let rain = f.double_to_float (f.literal (pos 5) 0) in
    for_all (calc_valve_flow f) n_valves (for_all (set_valve_rain_mm rain) n_valves first)

module _ (b : Board) where
  open b use {World}

  -- An id of 0 or beyond 11 is only reported.
  unfoldable pub set_valve_state : ℕ → ℕ → Valves → World → Valves × World
  set_valve_state id level v w =
      let r = Expander.write b id level v.load w in
      if not (id == 0) && leb id n_valves then (record v { load = r.0 }, r.1) else (v, w)

  unfoldable pub get_valve_state : ℕ → Valves → World → StatesSwitch × Valves × World
  get_valve_state id v w =
      let (level, x, w') = Expander.read b id v.load w in
      (if level == 0 then off else on, record v { load = x }, w')

  -- load_.put(0x0000)
  abbrev pub reset_outputs : Valves → World → Valves × World
  reset_outputs v w = let r = Expander.put b 0 v.load w in (record v { load = r.0 }, r.1)
