-- ===== src/Expander/Laws.antt =====
-- What pcy8575::write does to each pin, and that the module's answer brings the word back.
use acionna.Prelude.{
  ℕ, zero, suc, ◌+◌, ◌-◌, ◌/◌, ◌^◌, ◌<◌, ◌≤◌, ◌≡◌, ap, ◌∙◌, arith, ◌==◌, if◌then◌else◌, bit_and,
  bit_or, [], ◌∷◌, u16,
}
use native.Mathlib.Nat.{pow-le-pow_right}
use acionna.Bits.{
  bit, bit-bit_or, bit-bit_and, bit-pow, bit-mod, bit-complement, bit-lt-two, and_mask, or_shifted,
  and_one,
}
use acionna.Board.{Board}
use acionna.Expander.{
  ask, addr, reg_get, reg_put, Expander, put, write, get, read, low_byte, high_byte,
}

small_pow : (j : ℕ) → j < 16 → 2 ^ j < 2 ^ 32
small_pow j h = omega (arith, pow-le-pow_right {n = 2} (omega arith) {i = j} {j = 15} (omega arith))

bit-raised : (k j o : ℕ) → k < 16 → bit k (u16 (bit_or o (2 ^ j))) ≡ (if k == j then 1 else bit k o)
bit-raised k j o h =
    ground (
      arith,
      bit-mod k 16 (bit_or o (2 ^ j)) h,
      bit-bit_or k o (2 ^ j),
      bit-pow k j,
      bit-lt-two k o,
    )

bit-cleared :
    (k j o : ℕ)
    → k < 16
    → j < 16
    → bit k (u16 (bit_and o (2 ^ 32 - 1 - 2 ^ j))) ≡ (if k == j then 0 else bit k o)
bit-cleared k j o h hj = ground (
  arith,
  bit-mod k 16 (bit_and o (2 ^ 32 - 1 - 2 ^ j)) h,
  bit-bit_and k o (2 ^ 32 - 1 - 2 ^ j),
  bit-complement k 32 (2 ^ j) (omega arith) (small_pow j hj),
  bit-pow k j,
  bit-lt-two k o,
)

module _ (b : Board) where
  -- Writing pin 1 to 16 sets that output bit to the level and leaves the fifteen others.
  pub bit-write :
      (pin level k : ℕ) (x : Expander) (w : b.World)
      → 0 < pin
      → pin ≤ 16
      → k < 16
      → bit k (write b pin level x w).0.output
        ≡ (if k + 1 == pin then (if level == 0 then 0 else 1) else bit k x.output)
  unfolding write
  bit-write zero level k x w h h' hk = absurd (omega arith)
  bit-write (suc j) level k x w h h' hk =
      let e : suc j - 1 ≡ j = omega arith in
      rw e (ground (arith, bit-raised k j x.output hk, bit-cleared k j x.output hk (omega arith)))

-- What the module's documentation promises of PUT and GET: the answer is the pair of bytes put last.
pub record AnswersPut (b : Board) : Type 0 where
  pub answer :
      (lo hi : ℕ) (w : b.World)
      → (ask b reg_get 2 (b.transmit addr (reg_put ∷ lo ∷ hi ∷ []) w)).0 ≡ lo ∷ hi ∷ []

-- With a module that answers GET with the word put last, a 16-bit word put and asked for comes back,
-- through its split in two bytes and their joining.
pub get-put :
    (b : Board)
    → AnswersPut b
    → (word : ℕ) (x : Expander) (w : b.World) → word < 65536
    → let (y, w') = put b word x w in (get b y w').0.output ≡ word
unfolding put get
get-put b a word x w h = rw (a.answer (low_byte word) (high_byte word) w) (
    ground (
      arith,
      and_mask 8 word,
      and_mask 8 (word / 2 ^ 8),
      or_shifted 8 (high_byte word) (low_byte word),
    ))

write_fits :
    (b : Board) (pin level : ℕ) (x : Expander) (w : b.World)
    → (write b pin level x w).0.output < 65536
unfolding write
write_fits b pin level x w = ground arith

-- With a module that answers GET with the word put last, reading pin 1 to 16 after writing it gives
-- the level.
pub read-write :
    (b : Board)
    → AnswersPut b
    → (pin level : ℕ) (x : Expander) (w : b.World) → 0 < pin
    → pin ≤ 16
    → let (y, w') = write b pin level x w in (read b pin y w').0 ≡ (if level == 0 then 0 else 1)
unfolding read
read-write b a pin level x w h h' =
    let (y, w') = write b pin level x w in
    let word_back : (get b y w').0.output ≡ y.output =
      unfold write in get-put b a y.output x w (write_fits b pin level x w) in
    and_one (pin - 1) (get b y w').0.output
    ∙ ap (bit (pin - 1)) word_back
    ∙ bit-write b pin level (pin - 1) x w h h' (omega arith)
    ∙ ground arith
