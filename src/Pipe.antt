-- ===== src/Pipe.antt =====
-- Class Pipepvc (main/acionna/pipepvc.hpp): the pressure of a pipe, and the detection of air in the
-- intake. `int` members are unbounded integers here. For a pressure of at least 0 the test of
-- `0.70*previous`, computed in `double`, agrees with the integer test below. The sensor is not part
-- of the model: `update` takes its reading.
pub mod Laws
mod Tests
use acionna.Prelude.{
  ℕ, ◌+◌, ◌*◌, Bool, true, false, ◌||◌, ℤ, pos, ◌+ℤ◌, scale, ltb_ℤ, eqb_ℤ, half, ltb, leb, ◌==◌,
  if◌then◌else◌, u32,
}
use acionna.Types.{StatesMotor, same_motor}

pub data AirDetectStates : Type 0 where
  pressure_low_idle pressure_increasing pressure_stable pressure_slope : AirDetectStates

pub record Pipe : Type 0 where
  pub pressure_max : ℤ
  pub air_detect_pressure_low_ref : ℤ
  pub air_detect_timer_increase : ℕ
  pub air_detect_count_increase : ℕ
  pub air_detect_count_increase_ref : ℕ
  pub air_detect_timer_stable : ℕ
  pub pressure_mca_previous : ℤ
  pub pressure_mca_avg : ℤ
  pub pressure_mca_fi : ℤ
  pub air_detect_state : AirDetectStates
  pub pressure_mca : ℤ

abbrev pub new : Pipe
new = record {
  pressure_max = pos 56;
  air_detect_pressure_low_ref = pos 10;
  air_detect_timer_increase = 0;
  air_detect_count_increase = 0;
  air_detect_count_increase_ref = 10;
  air_detect_timer_stable = 0;
  pressure_mca_previous = pos 0;
  pressure_mca_avg = pos 0;
  pressure_mca_fi = pos 0;
  air_detect_state = AirDetectStates.pressure_low_idle;
  pressure_mca = pos 0;
}

unfoldable pub update : ℤ → Pipe → Pipe
update reading x = record x { pressure_mca = reading }

-- pressure < 0.70*reference
abbrev pub slope : ℤ → ℤ → Bool
slope pressure reference = ltb_ℤ (scale 10 pressure) (scale 7 reference)

-- The three lines that refresh the average.
abbrev pub average : ℤ → ℤ → ℤ
average avg pressure = half (avg +ℤ pos 1 +ℤ pressure)

abbrev pub refresh : Pipe → Pipe
refresh x = record x {
  pressure_mca_previous = x.pressure_mca;
  pressure_mca_avg = average x.pressure_mca_avg x.pressure_mca;
}

abbrev pub to_idle : Pipe → Pipe
to_idle x = record x { air_detect_state = AirDetectStates.pressure_low_idle }

abbrev pub to_slope : Pipe → Pipe
to_slope x = record x { air_detect_state = AirDetectStates.pressure_slope }

-- The cases of the `switch`, with the motor in its reference state.
unfoldable pub from_idle : Pipe → Pipe
from_idle x = record x {
  air_detect_state = AirDetectStates.pressure_increasing;
  air_detect_timer_increase = 0;
  air_detect_timer_stable = 0;
  pressure_mca_previous = x.pressure_mca;
  pressure_mca_avg = x.pressure_mca;
  pressure_mca_fi = x.pressure_mca;
}

-- One more sample equal to the average; `air_detect_count_increase` is set to 0 nowhere.
unfoldable pub count_equal : Pipe → Pipe
count_equal x =
    let y = record x { air_detect_count_increase = u32 (x.air_detect_count_increase + 1) } in
    if leb y.air_detect_count_increase_ref y.air_detect_count_increase
    then record y {
      air_detect_timer_stable = 0;
      air_detect_state = AirDetectStates.pressure_stable;
    }
    else y

unfoldable pub increasing : Pipe → Pipe
increasing x =
    let y = record x { air_detect_timer_increase = u32 (x.air_detect_timer_increase + 1) } in
    if ltb 5 y.air_detect_timer_increase
    then if slope y.pressure_mca y.pressure_mca_previous
      then to_slope y
      else if eqb_ℤ y.pressure_mca y.pressure_mca_avg
      then count_equal y
      else refresh y
    else refresh y

unfoldable pub stable : Pipe → Pipe
stable x =
    let y = record x { air_detect_timer_stable = u32 (x.air_detect_timer_stable + 1) } in
    if slope y.pressure_mca y.pressure_mca_avg || ltb_ℤ y.pressure_mca y.air_detect_pressure_low_ref
    then to_slope y
    else refresh y

-- `pressure_expected` is not used.
unfoldable pub air_intake_detect : StatesMotor → StatesMotor → ℤ → Pipe → ℕ × Pipe
air_intake_detect motor ref pressure_expected x = elim x.air_detect_state [
  | AirDetectStates.pressure_low_idle ↦ (0, if same_motor motor ref then from_idle x else x)
  | AirDetectStates.pressure_increasing ↦
      (0, if same_motor motor ref then increasing x else to_idle x)
  | AirDetectStates.pressure_stable ↦ (0, if same_motor motor ref then stable x else to_idle x)
  | AirDetectStates.pressure_slope ↦ (1, to_idle x)
]
