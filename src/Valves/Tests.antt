-- ===== src/Valves/Tests.antt =====
-- Runs of the sectors' sequence on a concrete board, and its theorems at concrete inputs.
use acionna.Prelude.{◌+◌, ◌≡◌, refl, arith, ◌==◌, some, pos}
use acionna.Types.{enable, StatesValves}
use acionna.Panel.{panel, idle, Levels}
use acionna.Valves.State.{Valves, new, remove, for_all, calc_valve_flow, set_valve_rain_mm}
use acionna.Valves.Sequence.{start, update, find_next, Found}
use acionna.Valves.Opened.{Direct}
use acionna.Valves.FindInverted.{Inverted, seeking, find_next-Direct, find_next-Inverted}
use acionna.Valves.Range.{InRange, start-InRange}
use acionna.Valves.Safe.{update-InRange}
use acionna.Valves.Cycle.{Ends, start-Ends}
use acionna.Valves.Plan.{plan_of, PlanStep}
use acionna.Valves.Refinement.{update-PlanStep}

abbrev fresh : Valves
fresh = new panel.fpu

-- Sector 1 done, sector 2 out of the programme.
abbrev second_out : Valves
second_out = record (remove 2 fresh) {
  valve_current = 1;
  state_valves = StatesValves.automatic_switch;
}

abbrev downwards : Valves
downwards = record second_out { valve_current = 3; flag_inverted_sequence = enable }

find_next-Direct_example :
    (r : Found panel) × (find_next panel second_out idle ≡ some r)
    × Direct panel (seeking second_out) 1 r
unfolding remove new for_all calc_valve_flow set_valve_rain_mm
find_next-Direct_example = find_next-Direct panel second_out idle refl (omega arith) refl

find_next-Inverted_example :
    (r : Found panel) × (find_next panel downwards idle ≡ some r)
    × Inverted panel (seeking downwards) 3 r
unfolding remove new for_all calc_valve_flow set_valve_rain_mm
find_next-Inverted_example =
    find_next-Inverted panel downwards idle refl (omega arith) (omega arith) refl

-- The order turned round just after the start.
abbrev turned : Valves
turned = record fresh { flag_inverted_sequence = enable }

update-InRange_example :
    (r : Valves × Levels) × (update panel 100 (pos 40) (start panel turned idle).0 idle ≡ some r)
    × InRange r.0
unfolding new for_all calc_valve_flow set_valve_rain_mm
update-InRange_example =
    update-InRange panel 100 (pos 40) (start panel turned idle).0 idle
      (start-InRange panel turned idle refl)

-- From sector 11 downwards.
start-Ends_example :
    let r = start panel turned idle in Ends panel (λ i. 1000 + i) (λ i. pos 40) 0 r.0 r.1
unfolding new for_all calc_valve_flow set_valve_rain_mm
start-Ends_example = start-Ends panel (λ i. 1000 + i) (λ i. pos 40) turned idle refl

-- The first second of the cycle downwards opens sector 11.
update-PlanStep_example :
    let v = (start panel turned idle).0 in
    (r : Valves × Levels) × (update panel 100 (pos 40) v idle ≡ some r)
    × PlanStep (v.time_valve_remain == 0) (plan_of v) (plan_of r.0)
unfolding start new for_all calc_valve_flow set_valve_rain_mm
update-PlanStep_example =
    update-PlanStep panel 100 (pos 40) (start panel turned idle).0 idle
      (start-InRange panel turned idle refl) refl
