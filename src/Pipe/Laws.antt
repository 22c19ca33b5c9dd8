-- ===== src/Pipe/Laws.antt =====
-- When the detection of air reports, and what its average is worth.
use acionna.Prelude.{
  ℕ, ◌+◌, ◌/◌, ◌≤◌, ◌≡◌, refl, ap, ◌∙◌, inl, inr, arith, Bool, true, false, ◌&&◌, ◌||◌, ℤ, pos,
  ltb_ℤ, eqb_ℤ, leb, ltb, if◌then◌else◌, u32, Bool-cases,
}
use acionna.Types.{StatesMotor, same_motor}
use acionna.Pipe.{
  Pipe, AirDetectStates, slope, average, air_intake_detect, increasing, stable, from_idle,
  count_equal, update,
}

-- The pressure has fallen: by 30% of the last sample after five seconds of rising, or by 30% of the
-- average or below the least pressure once it was stable.
abbrev pub fallen : Pipe → Bool
fallen x = elim x.air_detect_state [
  | AirDetectStates.pressure_low_idle ↦ false
  | AirDetectStates.pressure_increasing ↦
      ltb 5 (u32 (x.air_detect_timer_increase + 1)) && slope x.pressure_mca x.pressure_mca_previous
  | AirDetectStates.pressure_stable ↦
      slope x.pressure_mca x.pressure_mca_avg || ltb_ℤ x.pressure_mca x.air_detect_pressure_low_ref
  | AirDetectStates.pressure_slope ↦ false
]

abbrev is_slope : AirDetectStates → Bool
is_slope AirDetectStates.pressure_slope = true
is_slope _ = false

report_of :
    (m ref : StatesMotor) (e : ℤ) (x : Pipe)
    → (air_intake_detect m ref e x).0 ≡ (if is_slope x.air_detect_state then 1 else 0)
unfolding air_intake_detect
report_of m ref e x = by_state x.air_detect_state
  where
    by_state :
        (s : AirDetectStates)
        → (air_intake_detect m ref e (record x { air_detect_state = s })).0
          ≡ (if is_slope s then 1 else 0)
    by_state AirDetectStates.pressure_low_idle = refl
    by_state AirDetectStates.pressure_increasing = refl
    by_state AirDetectStates.pressure_stable = refl
    by_state AirDetectStates.pressure_slope = refl

increasing-slope :
    (x : Pipe)
    → x.air_detect_state ≡ AirDetectStates.pressure_increasing
    → is_slope (increasing x).air_detect_state ≡ (
        ltb 5 (u32 (x.air_detect_timer_increase + 1))
        && slope x.pressure_mca x.pressure_mca_previous)
unfolding increasing count_equal
increasing-slope x e = elim (Bool-cases (ltb 5 (u32 (x.air_detect_timer_increase + 1)))) [
  | inr t ↦ rw (t, e) refl
  | inl t ↦ elim (Bool-cases (slope x.pressure_mca x.pressure_mca_previous)) [
    | inl f ↦ rw (t, f) refl
    | inr f ↦ elim (Bool-cases (eqb_ℤ x.pressure_mca x.pressure_mca_avg)) [
      | inr g ↦ rw (t, f, g, e) refl
      | inl g ↦
          elim (Bool-cases
            (leb x.air_detect_count_increase_ref (u32 (x.air_detect_count_increase + 1)))) [
              | inl h ↦ rw (t, f, g, h) refl
              | inr h ↦ rw (t, f, g, h, e) refl
            ]
    ]
  ]
]

stable-slope :
    (x : Pipe)
    → x.air_detect_state ≡ AirDetectStates.pressure_stable
    → is_slope (stable x).air_detect_state ≡ (
        slope x.pressure_mca x.pressure_mca_avg
        || ltb_ℤ x.pressure_mca x.air_detect_pressure_low_ref)
unfolding stable
stable-slope x e =
    elim (Bool-cases (
      slope x.pressure_mca x.pressure_mca_avg
      || ltb_ℤ x.pressure_mca x.air_detect_pressure_low_ref)) [
        | inl t ↦ rw t refl
        | inr t ↦ rw (t, e) refl
      ]

next_slope :
    (m ref : StatesMotor) (e : ℤ) (x : Pipe)
    → is_slope (air_intake_detect m ref e x).1.air_detect_state ≡ (same_motor m ref && fallen x)
unfolding air_intake_detect from_idle
next_slope m ref e x = by_state x.air_detect_state
  where
    by_state :
        (s : AirDetectStates)
        → let y = record x { air_detect_state = s } in
          is_slope (air_intake_detect m ref e y).1.air_detect_state ≡ (same_motor m ref && fallen y)
    by_state AirDetectStates.pressure_low_idle = elim (Bool-cases (same_motor m ref)) [
      | inl t ↦ rw t refl
      | inr t ↦ rw t refl
    ]
    by_state AirDetectStates.pressure_increasing = elim (Bool-cases (same_motor m ref)) [
      | inl t ↦ rw t (
          increasing-slope (record x { air_detect_state = AirDetectStates.pressure_increasing })
            refl)
      | inr t ↦ rw t refl
    ]
    by_state AirDetectStates.pressure_stable = elim (Bool-cases (same_motor m ref)) [
      | inl t ↦
          rw t (stable-slope (record x { air_detect_state = AirDetectStates.pressure_stable }) refl)
      | inr t ↦ rw t refl
    ]
    by_state AirDetectStates.pressure_slope = elim (Bool-cases (same_motor m ref)) [
      | inl t ↦ rw t refl
      | inr t ↦ rw t refl
    ]

-- A call that reports air comes right after a call that found the motor in its reference state and
-- the pressure fallen, whatever the motor and the reading are by then; and every such call is
-- followed by a report.
pub detect-detect :
    (m m' ref ref' : StatesMotor) (e e' reading : ℤ) (x : Pipe)
    → (air_intake_detect m' ref' e' (update reading (air_intake_detect m ref e x).1)).0
      ≡ (if same_motor m ref && fallen x then 1 else 0)
unfolding update
detect-detect m m' ref ref' e e' reading x =
    report_of m' ref' e' (update reading (air_intake_detect m ref e x).1)
    ∙ ap (λ t. if t then 1 else 0) (next_slope m ref e x)

-- For pressures of at least 0, the average stays between any bounds that hold the old average and
-- the pressure.
pub average_between :
    (low high a p : ℕ)
    → low ≤ a
    → a ≤ high
    → low ≤ p
    → p ≤ high
    → (n : ℕ) × (average (pos a) (pos p) ≡ pos n) × (low ≤ n) × (n ≤ high)
average_between low high a p h h' g g' = ((a + 1 + p) / 2, ground arith, omega arith, omega arith)
