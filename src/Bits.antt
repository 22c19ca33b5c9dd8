-- ===== src/Bits.antt =====
-- The bits of a number, and `|`, `&`, `^` and `~` bit by bit.
use Prim.Native.Nat.{digits, bit_or-bitwise, bit_and-bitwise}
use native.Mathlib.Nat.{le_refl, pow-suc, one-le-pow, pow-succ', div-div-eq-div-mul}
use acionna.Prelude.{
  ℕ, zero, suc, ◌+◌, ◌-◌, ◌*◌, ◌/◌, ◌%◌, ◌^◌, ◌≤◌, ◌<◌, min, max, bit_and, bit_or, ◌≡◌, refl, sym,
  ◌∙◌, ap, arith, ◌==◌, if◌then◌else◌,
}

-- Bit `k` of `a`.
unfoldable pub bit : ℕ → ℕ → ℕ
bit zero a = a % 2
bit (suc k) a = bit k (a / 2)

half_mod : (a m : ℕ) → 0 < m → (a % (m * 2)) / 2 ≡ (a / 2) % m
half_mod a m h = grind arith

even_mod : (a m : ℕ) → 0 < m → a % (m * 2) % 2 ≡ a % 2
even_mod a m h = grind arith

-- The native operations mean a recursion on binary digits with fuel; more fuel changes nothing.
module _ (z : ℕ → ℕ) (f : ℕ → ℕ → ℕ) where
  enough_digits :
      (a b fuel more : ℕ) → a ≤ fuel → a ≤ more → digits z f fuel a b ≡ digits z f more a b
  enough_digits zero b zero zero h h' = refl
  enough_digits zero b zero (suc more) h h' = refl
  enough_digits zero b (suc fuel) zero h h' = refl
  enough_digits zero b (suc fuel) (suc more) h h' = refl
  enough_digits (suc a) b zero more h h' = absurd (omega arith)
  enough_digits (suc a) b (suc fuel) zero h h' = absurd (omega arith)
  enough_digits (suc a) b (suc fuel) (suc more) h h' =
      let rest = enough_digits (suc a / 2) (b / 2) fuel more (omega arith) (omega arith) in
      ap (λ (t : ℕ). t * 2 + f (suc a % 2) (b % 2)) rest

or_step : (a b : ℕ) → bit_or a b ≡ bit_or (a / 2) (b / 2) * 2 + max (a % 2) (b % 2)
or_step zero b = simp bit_or-bitwise (omega arith)
or_step (suc a) b = simp bit_or-bitwise (
    omega (
      arith,
      enough_digits (λ y. y) max (suc a / 2) (b / 2) a (suc a / 2) (omega arith) (le_refl _),
    ))

and_step : (a b : ℕ) → bit_and a b ≡ bit_and (a / 2) (b / 2) * 2 + min (a % 2) (b % 2)
and_step zero b = simp bit_and-bitwise (omega arith)
and_step (suc a) b = simp bit_and-bitwise (
    omega (
      arith,
      enough_digits (λ y. 0) min (suc a / 2) (b / 2) a (suc a / 2) (omega arith) (le_refl _),
    ))

pub bit-bit_or : (k a b : ℕ) → bit k (bit_or a b) ≡ max (bit k a) (bit k b)
unfolding bit
bit-bit_or zero a b = omega (arith, or_step a b)
bit-bit_or (suc k) a b =
    let e : bit_or a b / 2 ≡ bit_or (a / 2) (b / 2) = omega (arith, or_step a b) in
    rw e (bit-bit_or k (a / 2) (b / 2))

pub bit-bit_and : (k a b : ℕ) → bit k (bit_and a b) ≡ min (bit k a) (bit k b)
unfolding bit
bit-bit_and zero a b = omega (arith, and_step a b)
bit-bit_and (suc k) a b =
    let e : bit_and a b / 2 ≡ bit_and (a / 2) (b / 2) = omega (arith, and_step a b) in
    rw e (bit-bit_and k (a / 2) (b / 2))

pub bit-lt-two : (k a : ℕ) → bit k a < 2
unfolding bit
bit-lt-two zero a = omega arith
bit-lt-two (suc k) a = bit-lt-two k (a / 2)

pub bit-zero : (k : ℕ) → bit k 0 ≡ 0
unfolding bit
bit-zero zero = refl
bit-zero (suc k) = bit-zero k

-- The only bit of `1 << j`.
pub bit-pow : (k j : ℕ) → bit k (2 ^ j) ≡ (if k == j then 1 else 0)
unfolding bit
bit-pow zero zero = refl
bit-pow zero (suc j) = ground (arith, pow-suc 2 j)
bit-pow (suc k) zero = ground (arith, bit-zero k)
bit-pow (suc k) (suc j) =
    let e : 2 ^ suc j / 2 ≡ 2 ^ j = omega (arith, pow-suc 2 j) in rw e (ground (arith, bit-pow k j))

-- A cast to `n` bits keeps the bits below `n`.
pub bit-mod : (k n a : ℕ) → k < n → bit k (a % 2 ^ n) ≡ bit k a
unfolding bit
bit-mod k zero a h = absurd (omega arith)
bit-mod zero (suc n) a h = rw (pow-suc 2 n) (even_mod a (2 ^ n) (one-le-pow n 2 (omega arith)))
bit-mod (suc k) (suc n) a h =
    rw (pow-suc 2 n)
      (rw (half_mod a (2 ^ n) (one-le-pow n 2 (omega arith))) (bit-mod k n (a / 2) (omega arith)))

-- `~x` in `n` bits has the other bits.
pub bit-complement : (k n x : ℕ) → k < n → x < 2 ^ n → bit k (2 ^ n - 1 - x) ≡ 1 - bit k x
unfolding bit
bit-complement k zero x h l = absurd (omega arith)
bit-complement zero (suc n) x h l = omega (arith, pow-suc 2 n)
bit-complement (suc k) (suc n) x h l =
    let e : (2 ^ suc n - 1 - x) / 2 ≡ 2 ^ n - 1 - x / 2 = omega (arith, pow-suc 2 n) in
    rw e (bit-complement k n (x / 2) (omega arith) (omega (arith, pow-suc 2 n)))

or_zero : (n q : ℕ) → q ≤ n → bit_or q 0 ≡ q
or_zero zero zero h = refl
or_zero zero (suc q) h = absurd (omega arith)
or_zero (suc n) q h = omega (arith, or_step q 0, or_zero n (q / 2) (omega arith))

and_zero : (n q : ℕ) → q ≤ n → bit_and q 0 ≡ 0
and_zero zero zero h = refl
and_zero zero (suc q) h = absurd (omega arith)
and_zero (suc n) q h = omega (arith, and_step q 0, and_zero n (q / 2) (omega arith))

-- `(q << n) | r` is a sum where `r` has `n` bits.
pub or_shifted : (n q r : ℕ) → r < 2 ^ n → bit_or (q * 2 ^ n) r ≡ q * 2 ^ n + r
or_shifted zero q r h = ground (arith, or_zero q q (le_refl q))
or_shifted (suc n) q r h =
    let twice : q * 2 ^ suc n ≡ q * 2 ^ n * 2 = rw (pow-suc 2 n) (omega arith) in
    ground (
      arith,
      twice,
      pow-suc 2 n,
      or_step (q * 2 ^ suc n) r,
      or_shifted n q (r / 2) (omega (arith, pow-suc 2 n)),
    )

-- A mask of `n` low bits is the remainder by `2 ^ n`.
pub and_mask : (n a : ℕ) → bit_and a (2 ^ n - 1) ≡ a % 2 ^ n
and_mask zero a = ground (arith, and_zero a a (le_refl a))
and_mask (suc n) a =
    let e : (2 ^ suc n - 1) / 2 ≡ 2 ^ n - 1 = omega (arith, pow-suc 2 n) in
    let p : 1 ≤ 2 ^ n = one-le-pow n 2 (omega arith) in
    let m : ℕ = a % (2 ^ n * 2) in
    let m_eq : a % 2 ^ suc n ≡ m = ap (λ (t : ℕ). a % t) (pow-suc 2 n) in
    omega (
      arith,
      m_eq,
      and_step a (2 ^ suc n - 1),
      ap (λ (t : ℕ). bit_and (a / 2) t) e,
      and_mask n (a / 2),
      half_mod a (2 ^ n) p,
      even_mod a (2 ^ n) p,
      pow-suc 2 n,
    )

-- `(a >> k) & 1`.
pub and_one : (k a : ℕ) → bit_and (a / 2 ^ k) 1 ≡ bit k a
unfolding bit
and_one zero a = and_mask 1 (a / 1) ∙ omega arith
and_one (suc k) a =
    let e : a / 2 ^ suc k ≡ a / 2 / 2 ^ k =
      ap (λ (t : ℕ). a / t) (pow-succ' 2 k) ∙ sym (div-div-eq-div-mul a 2 (2 ^ k)) in
    rw e (and_one k (a / 2))
