-- ===== src/Gpio/Created.antt =====
-- The pins after the constructor of class Pump (main/acionna/pump.hpp), and the controller on them.
use acionna.Prelude.{ℕ, zero, suc, ◌≡◌, ◌≢◌, ◌∙◌, false, arith}
use acionna.Gpio.{Idf, Direction, create, mode}
use acionna.Gpio.Wiring.{load_pin, generic_pin, IsPins, IsConfigured, Chip}
use acionna.Controller.Interlock.Reach.{Reach}

module _ (idf : Idf) where
  -- ac_load_{{AC_LOAD1, 1}, {AC_LOAD2, 1}, {AC_LOAD3, 1}}
  abbrev pub loads_created : idf.World → idf.World
  loads_created w =
      let w1 = (create idf (load_pin 0) 1 false w).1 in
      let w2 = (create idf (load_pin 1) 1 false w1).1 in (create idf (load_pin 2) 1 false w2).1

  -- gpio_generic_{{GPIO_GENERIC1}, {GPIO_GENERIC2}, {GPIO_GENERIC3}, {GPIO_GENERIC4}}
  abbrev pub pins_created : idf.World → idf.World
  pins_created w =
      let w1 = (create idf (generic_pin 0) 0 false (loads_created w)).1 in
      let w2 = (create idf (generic_pin 1) 0 false w1).1 in
      let w3 = (create idf (generic_pin 2) 0 false w2).1 in
      (create idf (generic_pin 3) 0 false w3).1

module _ {idf : Idf} (h : IsPins idf) where
  create_output :
      (p : ℕ) (w : idf.World) → h.direction p (create idf p 1 false w).1 ≡ Direction.input_output
  unfolding create mode
  create_output p w = h.sets p Direction.input_output w

  create_output_other :
      (p q : ℕ) (w : idf.World) → p ≢ q → h.direction q (create idf p 1 false w).1 ≡ h.direction q w
  unfolding create mode
  create_output_other p q w n = h.sets_one p q Direction.input_output w n

  create_input_other :
      (p q : ℕ) (w : idf.World) → p ≢ q → h.direction q (create idf p 0 false w).1 ≡ h.direction q w
  unfolding create mode
  create_input_other p q w n = h.pull_keeps p q _ _ ∙ h.sets_one p q Direction.input w n

  loads_created-IsConfigured : (w : idf.World) → IsConfigured h (loads_created idf w)
  loads_created-IsConfigured w zero q =
      create_output_other 5 21 _ (omega arith)
      ∙ create_output_other 18 21 _ (omega arith)
      ∙ create_output 21 w
  loads_created-IsConfigured w (suc zero) q =
      create_output_other 5 18 _ (omega arith) ∙ create_output 18 _
  loads_created-IsConfigured w (suc (suc zero)) q = create_output 5 _
  loads_created-IsConfigured w (suc (suc (suc i))) q = absurd (omega arith)

  load_pin-ne-generic : (i j : ℕ) → generic_pin j ≢ load_pin i
  load_pin-ne-generic i j = λ e. ground arith

  pub pins_created-IsConfigured : (w : idf.World) → IsConfigured h (pins_created idf w)
  pins_created-IsConfigured w i q =
      create_input_other 33 (load_pin i) _ (load_pin-ne-generic i 3)
      ∙ create_input_other 19 (load_pin i) _ (load_pin-ne-generic i 2)
      ∙ create_input_other 22 (load_pin i) _ (load_pin-ne-generic i 1)
      ∙ create_input_other 23 (load_pin i) _ (load_pin-ne-generic i 0)
      ∙ loads_created-IsConfigured w i q

  abbrev pub chip_created : idf.World → Chip h
  chip_created w = (pins_created idf w, pins_created-IsConfigured w)
