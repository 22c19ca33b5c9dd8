-- ===== src/Dht/Laws.antt =====
-- What `read` makes of the pulses of the sensor.
use acionna.Prelude.{
  ℕ, zero, suc, all_below, all_below_sound, ◌+◌, ◌*◌, ◌/◌, ◌%◌, ◌≤◌, ◌<◌, ◌≡◌, ◌≢◌, refl, ◌∙◌, ap,
  arith, Bool, true, false, ◌||◌, ◌==◌, ltb, if◌then◌else◌, List, [], ◌∷◌, ◌++◌, bit_or, u8,
}
use acionna.Gpio.{Idf, GpioDriver}
use acionna.Gpio as Pin
use acionna.Dht.{
  Dht, Modes, Cycle, no_data, check_sum, shift_in, decode, wait_pulse, wait_80, measure, request,
  decoded, read,
}

-- No pulse is missed, and the high one is the longer one where the bit is set.
abbrev pub Carries : List Cycle → List Bool → Type 0
Carries [] [] = Unit
Carries ((low, high) ∷ cycles) (b ∷ bits) =
    (low ≢ 0) × (high ≢ 0) × (ltb low high ≡ b) × Carries cycles bits
Carries _ _ = ⊥

abbrev shift_all : List Bool → ℕ → List ℕ → List ℕ
shift_all [] i bytes = bytes
shift_all (b ∷ bits) i bytes = shift_all bits (i + 1) (shift_in i b bytes)

-- The bits of a byte, the highest first.
abbrev pub bits_of : ℕ → List Bool
bits_of n =
    (n / 128 % 2 == 1)
    ∷ (n / 64 % 2 == 1)
    ∷ (n / 32 % 2 == 1)
    ∷ (n / 16 % 2 == 1)
    ∷ (n / 8 % 2 == 1)
    ∷ (n / 4 % 2 == 1)
    ∷ (n / 2 % 2 == 1)
    ∷ (n % 2 == 1)
    ∷ []

abbrev collected : List Bool → ℕ → ℕ
collected [] n = n
collected (b ∷ bits) n = collected bits (bit_or (u8 (n * 2)) (if b then 1 else 0))

all_collected : all_below 256 (λ n. collected (bits_of n) 0 == n) ≡ true
unfolding all_below
all_collected = refl

collected-bits_of : (n : ℕ) → n < 256 → collected (bits_of n) 0 ≡ n
collected-bits_of n h =
    of_eqb (all_below_sound (λ k. collected (bits_of k) 0 == k) 256 n h all_collected)
  where
    of_eqb : {a b : ℕ} → (a == b) ≡ true → a ≡ b
    of_eqb e = ground arith

decode-shift_all :
    (cycles : List Cycle) (bits : List Bool) (i : ℕ) (bytes : List ℕ)
    → Carries cycles bits
    → decode cycles i bytes ≡ (true, shift_all bits i bytes)
unfolding decode
decode-shift_all [] [] i bytes h = refl
decode-shift_all ((low, high) ∷ cycles) (b ∷ bits) i bytes (l, h, e, c) =
    let rest = decode-shift_all cycles bits (i + 1) (shift_in i b bytes) c in
    let found : ((low == 0) || (high == 0)) ≡ false = ground (arith, l, h) in rw (found, e) rest
decode-shift_all [] (b ∷ bits) i bytes h = absurd h
decode-shift_all (c ∷ cycles) [] i bytes h = absurd h

abbrev pub frame_bits : ℕ → ℕ → ℕ → ℕ → ℕ → List Bool
frame_bits b0 b1 b2 b3 b4 = bits_of b0 ++ bits_of b1 ++ bits_of b2 ++ bits_of b3 ++ bits_of b4

shift_all-frame :
    (b0 b1 b2 b3 b4 : ℕ)
    → shift_all (frame_bits b0 b1 b2 b3 b4) 0 no_data
      ≡ collected (bits_of b0) 0
        ∷ collected (bits_of b1) 0
        ∷ collected (bits_of b2) 0
        ∷ collected (bits_of b3) 0
        ∷ collected (bits_of b4) 0
        ∷ []
shift_all-frame b0 b1 b2 b3 b4 = refl

-- A frame of five bytes is read as these bytes, whatever the lengths of the pulses are, as long as none is
-- missed and the high pulse is longer than the low one exactly where the bit is set.
pub decode-frame :
    (cycles : List Cycle) (b0 b1 b2 b3 b4 : ℕ)
    → b0 < 256
    → b1 < 256
    → b2 < 256
    → b3 < 256
    → b4 < 256
    → Carries cycles (frame_bits b0 b1 b2 b3 b4)
    → decode cycles 0 no_data ≡ (true, b0 ∷ b1 ∷ b2 ∷ b3 ∷ b4 ∷ [])
decode-frame cycles b0 b1 b2 b3 b4 h0 h1 h2 h3 h4 c =
    let e0 = collected-bits_of b0 h0 in
    let e1 = collected-bits_of b1 h1 in
    let e2 = collected-bits_of b2 h2 in
    let e3 = collected-bits_of b3 h3 in
    let e4 = collected-bits_of b4 h4 in
    decode-shift_all cycles (frame_bits b0 b1 b2 b3 b4) 0 no_data c ∙ λ t.
    (true, e0 t ∷ e1 t ∷ e2 t ∷ e3 t ∷ e4 t ∷ [])

third_case :
    {A : Type 0} (t u : Bool) (a b c : A)
    → t ≡ false
    → u ≡ false
    → (if t then a else if u then b else c) ≡ c
third_case t u a b c e f = rw (e, f) refl

first_case :
    {A : Type 0} (t u : Bool) (a b c : A) → t ≡ true → (if t then a else if u then b else c) ≡ a
first_case t u a b c e = rw e refl

same_rest :
    {A : Type 0} (p t : Bool) (a c r r' : A)
    → (t ≡ false → r ≡ r')
    → (if p then (if t then a else r) else c) ≡ (if p then (if t then a else r') else c)
same_rest true true a c r r' f = refl
same_rest true false a c r r' f = f refl
same_rest false t a c r r' f = refl

eqb_false : (n : ℕ) → n ≢ 0 → (n == 0) ≡ false
eqb_false n h = ground arith

-- The sum is not cut to a byte before it is compared.
sum_test :
    (b0 b1 b2 b3 b4 : ℕ) (d : Dht)
    → b4 ≡ (b0 + b1 + b2 + b3) % 256
    → check_sum (record d { raw = b0 ∷ b1 ∷ b2 ∷ b3 ∷ b4 ∷ [] }) ≡ ltb (b0 + b1 + b2 + b3) 256
unfolding check_sum
sum_test b0 b1 b2 b3 b4 d sum = ground arith

module _ (idf : Idf) (modes : Modes) (delay_us delay_ms : ℕ → idf.World → idf.World) where
  -- The pulses that `read` meets: the sensor's answer, and the 40 cycles after it.
  abbrev pub first_low : Dht → idf.World → ℕ × idf.World
  first_low d w =
      wait_80 idf modes delay_us delay_ms 0 d.gpio (request idf modes delay_us delay_ms d.gpio w)

  abbrev pub first_high : Dht → idf.World → ℕ × idf.World
  first_high d w = wait_80 idf modes delay_us delay_ms 1 d.gpio (first_low d w).1

  abbrev pub cycles_met : Dht → idf.World → List Cycle
  cycles_met d w = (measure idf modes delay_us delay_ms 40 d.gpio (first_high d w).1).0

  -- When the sensor answers and its frame is correct, with the last byte the low byte of the sum of the
  -- four others, `read` keeps the five bytes; but it reports success only where the sum stays below
  -- 256.
  pub read-frame :
      (d : Dht) (w : idf.World) (b0 b1 b2 b3 b4 : ℕ)
      → b0 < 256
      → b1 < 256
      → b2 < 256
      → b3 < 256
      → (first_low d w).0 ≢ 0
      → (first_high d w).0 ≢ 0
      → b4 ≡ (b0 + b1 + b2 + b3) % 256
      → Carries (cycles_met d w) (frame_bits b0 b1 b2 b3 b4)
      → let r = (read idf modes delay_us delay_ms d w).0 in
        (r.0.raw ≡ b0 ∷ b1 ∷ b2 ∷ b3 ∷ b4 ∷ []) × (r.1 ≡ ltb (b0 + b1 + b2 + b3) 256)
  unfolding read
  read-frame d w b0 b1 b2 b3 b4 h0 h1 h2 h3 low high sum c =
      let h4 : b4 < 256 = omega (arith, sum) in
      let e = third_case _ _ _ _ _ (eqb_false _ low) (eqb_false _ high) in
      let kept = decode-frame (cycles_met d w) b0 b1 b2 b3 b4 h0 h1 h2 h3 h4 c in
      (
        ap (λ (x : (Dht × Bool) × idf.World). x.0.0.raw) e ∙ ap (λ (x : Bool × List ℕ). x.1) kept,
        ap (λ (x : (Dht × Bool) × idf.World). x.0.1) e
            ∙ ap (λ (x : Bool × List ℕ). if x.0 then check_sum (record d { raw = x.1 }) else false)
                kept
            ∙ sum_test b0 b1 b2 b3 b4 d sum,
      )

  -- Without an answer on the pin, and when a pulse of the answer is missed, `read` fails with its bytes
  -- cleared.
  pub read-silent :
      (d : Dht) (w : idf.World)
      → (first_low d w).0 ≡ 0
      → let r = (read idf modes delay_us delay_ms d w).0 in (r.0.raw ≡ no_data) × (r.1 ≡ false)
  unfolding read
  read-silent d w e =
      let cleared : (Dht × Bool) × idf.World =
        ((record d { raw = no_data }, false), (first_low d w).1) in
      let r : read idf modes delay_us delay_ms d w ≡ cleared =
        first_case ((first_low d w).0 == 0) ((first_high d w).0 == 0) cleared
          ((record d { raw = no_data }, false), (first_high d w).1)
          (
            decoded idf modes delay_us delay_ms d (cycles_met d w),
            (measure idf modes delay_us delay_ms 40 d.gpio (first_high d w).1).1,
          )
          (ap (λ (n : ℕ). n == 0) e) in
      (
        ap (λ (x : (Dht × Bool) × idf.World). x.0.0.raw) r,
        ap (λ (x : (Dht × Bool) × idf.World). x.0.1) r,
      )

  -- The wait for the end of a pulse gives up once its count passes `us`: from a count up to `us + 1`
  -- on, whatever the pin does, `us + 2` rounds in all are enough, and more change nothing.
  pub wait_pulse_ends :
      (pulse us fuel more i : ℕ) (g : GpioDriver) (w : idf.World)
      → i ≤ us + 1
      → us + 2 ≤ i + fuel
      → us + 2 ≤ i + more
      → wait_pulse idf modes delay_us delay_ms pulse us fuel i g w
        ≡ wait_pulse idf modes delay_us delay_ms pulse us more i g w
  unfolding wait_pulse
  wait_pulse_ends pulse us zero more i g w l h h' = absurd (omega arith)
  wait_pulse_ends pulse us (suc fuel) zero i g w l h h' = absurd (omega arith)
  wait_pulse_ends pulse us (suc fuel) (suc more) i g w l h h' =
      same_rest ((Pin.read idf g w).1 == pulse) (ltb us i) (0, w) (u8 i, w) _ _
        (λ e.
          wait_pulse_ends pulse us fuel more (i + 1) g (delay_us 1 w) (ground (arith, e))
            (omega arith) (omega arith))
