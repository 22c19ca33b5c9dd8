-- ===== src/Controller/Interlock/Programme.antt =====
-- The operations on the sectors' programme keep the sectors' index in range.
use acionna.Prelude.{ℕ, zero, suc, ◌∙◌, Bool, true, false, ◌==◌, if◌then◌else◌, length-set}
use acionna.Board.{Fpu}
use acionna.Expander.{Expander}
use acionna.Valves.State.{
  Valves, n_valves, for_all, set_valve_rain_mm, calc_time_by_rain_mm, set_valve_time,
  set_valve_pressure, add, remove,
}
use acionna.Valves.Range.{InRange}
use acionna.Controller.Sectors.{for_id, set_rain}

-- An operation on one sector.
abbrev Keeping : (Valves → Valves) → Type 0
Keeping f = (v : Valves) → InRange v → InRange (f v)

pub add-InRange : (id : ℕ) → Keeping (add id)
unfolding add
add-InRange zero v i = i
add-InRange (suc n) v i = record {
  eleven = length-set v.valve n _ ∙ i.eleven;
  in_order = i.in_order;
}

pub remove-InRange : (id : ℕ) → Keeping (remove id)
unfolding remove
remove-InRange zero v i = i
remove-InRange (suc n) v i = record {
  eleven = length-set v.valve n _ ∙ i.eleven;
  in_order = i.in_order;
}

pub time-InRange : (value id : ℕ) → Keeping (set_valve_time id value)
unfolding set_valve_time
time-InRange value zero v i = i
time-InRange value (suc n) v i = record {
  eleven = length-set v.valve n _ ∙ i.eleven;
  in_order = i.in_order;
}

pub pressure-InRange : (value id : ℕ) → Keeping (set_valve_pressure id value)
unfolding set_valve_pressure
pressure-InRange value zero v i = i
pressure-InRange value (suc n) v i = record {
  eleven = length-set v.valve n _ ∙ i.eleven;
  in_order = i.in_order;
}

rain-InRange : (r_mm id : ℕ) → Keeping (set_valve_rain_mm r_mm id)
unfolding set_valve_rain_mm
rain-InRange r_mm zero v i = i
rain-InRange r_mm (suc n) v i = record {
  eleven = length-set v.valve n _ ∙ i.eleven;
  in_order = i.in_order;
}

calc-InRange : (f : Fpu) (id : ℕ) → Keeping (calc_time_by_rain_mm f id)
unfolding calc_time_by_rain_mm
calc-InRange f zero v i = i
calc-InRange f (suc n) v i = record {
  eleven = length-set v.valve n _ ∙ i.eleven;
  in_order = i.in_order;
}

for_all-InRange :
    (f : ℕ → Valves → Valves) (n : ℕ) → ((id : ℕ) → Keeping (f id)) → Keeping (for_all f n)
unfolding for_all
for_all-InRange f zero k v i = i
for_all-InRange f (suc n) k v i = k (suc n) (for_all f n v) (for_all-InRange f n k v i)

pub either :
    {W : Type 0} (t : Bool) (r s : Valves × W)
    → InRange r.0
    → InRange s.0
    → InRange (if t then r else s).0
either true r s h k = h
either false r s h k = k

either_value : (t : Bool) (r s : Valves) → InRange r → InRange s → InRange (if t then r else s)
either_value true r s h k = h
either_value false r s h k = k

pub for_id-InRange :
    (f : ℕ → Valves → Valves) (id : ℕ) → ((j : ℕ) → Keeping (f j)) → Keeping (for_id f id)
for_id-InRange f id k v i = either_value (id == 0) _ _ (for_all-InRange f n_valves k v i) (k id v i)

pub set_rain-InRange : (f : Fpu) (r_mm id : ℕ) → Keeping (set_rain f r_mm id)
unfolding set_rain
set_rain-InRange f r_mm id v i =
    for_id-InRange (calc_time_by_rain_mm f) id (calc-InRange f) _
      (for_id-InRange (set_valve_rain_mm r_mm) id (rain-InRange r_mm) v i)

pub load-InRange : (x : Expander) (v : Valves) → InRange v → InRange (record v { load = x })
load-InRange x v i = record { eleven = i.eleven; in_order = i.in_order }
