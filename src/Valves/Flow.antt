-- ===== src/Valves/Flow.antt =====
-- The rates, volumes and times of a sector (main/acionna/valves.hpp), in the chip's `float` and `double`
-- arithmetic. A literal without a suffix is a `double`; `pow` of a `float` and an `int` is the one of
-- two `double`s.
use acionna.Prelude.{ℕ, List, [], ◌∷◌, length, ℤ, pos, negsuc}
use acionna.Board.{Fpu}

module _ (f : Fpu) where
  open f use {
    literal, float_of, float_to_double, double_to_float, u32_of, mul, div, add_double, mul_double,
    div_double, pow,
  }

  -- The loop of `calc_flow_by_press`: a coefficient for each power, from the highest one down.
  unfoldable pub polynomial : List ℕ → ℕ → ℕ → ℕ
  polynomial [] p flow = flow
  polynomial (a ∷ rest) p flow =
      let power = pow (float_to_double p) (literal (pos (length rest)) 0) in
      polynomial rest p
        (double_to_float (add_double (float_to_double flow) (mul_double (float_to_double a) power)))

  abbrev coefficient : ℤ → ℕ → ℕ
  coefficient n k = double_to_float (literal n k)

  unfoldable pub calc_flow_by_press : ℕ → ℕ
  calc_flow_by_press p =
      polynomial
        (coefficient (negsuc 781404597668743) 21
          ∷ coefficient (pos 1344964277056774) 19
          ∷ coefficient (negsuc 7860563868574867) 18
          ∷ coefficient (pos 1461761489432135) 16
          ∷ coefficient (pos 1196684722526538) 15
          ∷ coefficient (pos 8659938993111427) 17
          ∷ [])
        p (coefficient (pos 0) 0)

  -- rain_mm*area/1000.0
  unfoldable pub volume_of : ℕ → ℕ → ℕ
  volume_of rain_mm area =
      double_to_float
        (div_double (float_to_double (mul rain_mm (float_of (pos area)))) (literal (pos 1000) 0))

  -- volume/flow*3600.0
  unfoldable pub time_of : ℕ → ℕ → ℕ
  time_of volume flow =
      u32_of (mul_double (float_to_double (div volume flow)) (literal (pos 3600) 0))

  -- static_cast<float>(tenths)/10.0
  unfoldable pub tenths_of : ℤ → ℕ
  tenths_of tenths =
      double_to_float (div_double (float_to_double (float_of tenths)) (literal (pos 10) 0))
