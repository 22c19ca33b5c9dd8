-- ===== src/Dht/Tests.antt =====
-- A sensor whose pin shows a list of samples, one per microsecond.
use acionna.Prelude.{
  ℕ, ◌+◌, ◌≡◌, refl, true, false, not, ◌&&◌, ◌==◌, ltb, arith, List, [], ◌∷◌, Bool, if◌then◌else◌,
  get_or,
}
use acionna.Gpio.{Idf, GpioDriver}
use acionna.Gpio as Pin
use acionna.Dht.{Dht, Modes, Cycle, no_data, wait_pulse, measure, read}
use acionna.Dht.Laws.{frame_bits, Carries, cycles_met, read-frame}

abbrev rest_of : List ℕ → List ℕ
rest_of [] = []
rest_of (x ∷ xs) = xs

abbrev sampled : Idf
sampled = record {
  World = List ℕ;
  gpio_set_direction = λ p d w. w;
  gpio_set_pull_mode = λ p m w. w;
  gpio_get_level = λ p w. get_or w 0 0;
  gpio_set_level = λ p v w. w;
  gpio_reset_pin = λ p w. w;
  gpio_iomux_out = λ p f w. w;
  gpio_set_drive_capability = λ p c w. w;
  gpio_hold = λ p h w. w;
  gpio_deep_sleep_hold = λ h w. w;
  gpio_install_isr_service = λ w. w;
  gpio_uninstall_isr_service = λ w. w;
  gpio_isr_handler_add = λ p w. w;
  gpio_isr_handler_remove = λ p w. w;
  gpio_set_intr_type = λ p t w. w;
  gpio_intr_enable = λ p w. w;
  gpio_intr_disable = λ p w. w;
}

abbrev modes : Modes
modes = record {
  gpio_mode_input = 1;
  gpio_mode_output = 2;
  gpio_mode_input_output = 3;
  gpio_pullup_only = 0;
}

abbrev wait_us : ℕ → List ℕ → List ℕ
wait_us t w = if ltb 1 t then w else rest_of w

abbrev wait_ms : ℕ → List ℕ → List ℕ
wait_ms t w = w

-- Two low samples, and one or three high ones.
abbrev samples_of : List Bool → List ℕ
samples_of [] = 0 ∷ []
samples_of (b ∷ bits) = 0 ∷ 0 ∷ 1 ∷ (if b then 1 ∷ 1 ∷ samples_of bits else samples_of bits)

abbrev sensor : Dht
sensor = record { gpio = record { pin_number = 13; direction = 0; level = 0 }; raw = no_data }

-- 96.8 % and 35.1 degrees: the sum of the bytes is 299, its low byte 43.
abbrev large_sum : List ℕ
large_sum = 0 ∷ 1 ∷ samples_of (frame_bits 3 200 1 95 43)

-- The pulses of a frame, tested.
abbrev carries : List Cycle → List Bool → Bool
carries [] [] = true
carries ((low, high) ∷ cycles) (b ∷ bits) =
    not (low == 0)
    && not (high == 0)
    && (if b then ltb low high else not (ltb low high))
    && carries cycles bits
carries _ _ = false

carries_sound :
    (cycles : List Cycle) (bits : List Bool) → carries cycles bits ≡ true → Carries cycles bits
carries_sound [] [] e = tt
carries_sound ((low, high) ∷ cycles) (true ∷ bits) e = (
  λ z. ground (arith, e),
  λ z. ground (arith, e),
  ground (arith, e),
  carries_sound cycles bits (ground (arith, e)),
)
carries_sound ((low, high) ∷ cycles) (false ∷ bits) e = (
  λ z. ground (arith, e),
  λ z. ground (arith, e),
  ground (arith, e),
  carries_sound cycles bits (ground (arith, e)),
)
carries_sound [] (b ∷ bits) e = cc
carries_sound (c ∷ cycles) [] e = cc

read-frame_example :
    let r = (read sampled modes wait_us wait_ms sensor large_sum).0 in
    (r.0.raw ≡ 3 ∷ 200 ∷ 1 ∷ 95 ∷ 43 ∷ []) × (r.1 ≡ ltb (3 + 200 + 1 + 95) 256)
unfolding wait_pulse measure Pin.read Pin.mode Pin.pull Pin.write
read-frame_example =
    read-frame sampled modes wait_us wait_ms sensor large_sum 3 200 1 95 43 (omega arith)
      (omega arith) (omega arith) (omega arith) (λ e. ground arith) (λ e. ground arith) refl
      (carries_sound (cycles_met sampled modes wait_us wait_ms sensor large_sum)
        (frame_bits 3 200 1 95 43) refl)
