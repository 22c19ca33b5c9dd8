-- ===== src/Pipe/Tests.antt =====
-- The detection of air at concrete inputs.
use acionna.Prelude.{◌≡◌, pos}
use acionna.Types.{StatesMotor}
use acionna.Pipe.{Pipe, new, AirDetectStates, air_intake_detect, update}
use acionna.Pipe.Laws.{detect-detect}

-- Stable at 40 m, and now at 20 m.
abbrev falling : Pipe
falling = record new {
  air_detect_state = AirDetectStates.pressure_stable;
  pressure_mca_avg = pos 40;
  pressure_mca = pos 20;
}

detect-detect_example :
    (air_intake_detect StatesMotor.off_idle StatesMotor.on_nominal_k1 (pos 60) (
      update
        (pos 50)
        (air_intake_detect StatesMotor.on_nominal_k1 StatesMotor.on_nominal_k1
          (pos 60)
          falling).1)).0
    ≡ 1
detect-detect_example =
    detect-detect StatesMotor.on_nominal_k1 StatesMotor.off_idle StatesMotor.on_nominal_k1
      StatesMotor.on_nominal_k1 (pos 60) (pos 60) (pos 50) falling
