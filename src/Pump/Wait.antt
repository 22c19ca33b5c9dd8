-- ===== src/Pump/Wait.antt =====
-- The wait loops of Pump::start and Pump::stop end by themselves, within their round limit.
use acionna.Prelude.{
  ℕ, zero, suc, ◌+◌, ◌≤◌, ◌<◌, ◌≡◌, refl, ◌⊎◌, inl, inr, Bool, true, false, arith, ltb, Bool-cases,
}
use acionna.Board.{Board}
use acionna.Pump.State.{Pump, update_switches}
use acionna.Pump.Stop.{Release, any_on, release, release_round}
use acionna.Pump.Start.{Waited, wait_while}

module _ (b : Board) where
  open b use {World}

  -- Two amounts of fuel for a wait loop that pass the limit give one result.
  pub wait_while_fuel :
      (test : Pump → Bool) (limit f g i : ℕ) (p : Pump) (w : World)
      → limit < i + f
      → limit < i + g
      → i ≤ limit
      → wait_while b test limit f i p w ≡ wait_while b test limit g i p w
  unfolding wait_while
  wait_while_fuel test limit zero g i p w hf hg h = absurd (omega arith)
  wait_while_fuel test limit (suc f) zero i p w hf hg h = absurd (omega arith)
  wait_while_fuel test limit (suc f) (suc g) i p w hf hg h = elim (Bool-cases (test p)) [
    | inr e ↦ rw e
    | inl e ↦ elim (Bool-cases (ltb limit (i + 1))) [
      | inl over ↦ rw e (rw over)
      | inr under ↦ rw e (
          rw under (
            wait_while_fuel test limit f g (i + 1) (update_switches b p (b.delay_us 1 w))
              (b.delay_us 1 w) (omega arith) (omega arith) (ground arith)))
    ]
  ]

  abbrev pub Ended : (Pump → Bool) → ℕ → Waited World → Type 0
  Ended test limit r =
      ((r.late ≡ false) × (test r.pump ≡ false) × (r.i ≤ limit))
      ⊎ ((r.late ≡ true) × (r.i ≡ limit + 1))

  -- With fuel to pass the limit and a count within it, the wait loop ends because its test fails,
  -- within the limit, or gives up just beyond it.
  pub wait_while_ends :
      (test : Pump → Bool) (limit f i : ℕ) (p : Pump) (w : World)
      → limit < i + f
      → i ≤ limit
      → Ended test limit (wait_while b test limit f i p w)
  unfolding wait_while
  wait_while_ends test limit zero i p w hf h = absurd (omega arith)
  wait_while_ends test limit (suc f) i p w hf h = elim (Bool-cases (test p)) [
    | inr e ↦ rw e (inl (refl, e, h))
    | inl e ↦ elim (Bool-cases (ltb limit (i + 1))) [
      | inl over ↦ rw e (rw over (inr (refl, ground arith)))
      | inr under ↦ rw e (
          rw under (
            wait_while_ends test limit f (i + 1) (update_switches b p (b.delay_us 1 w))
              (b.delay_us 1 w) (omega arith) (ground arith)))
    ]
  ]

  -- Two amounts of fuel for the release loop of `stop` that pass the limit give one result, for a
  -- count within it.
  pub release_fuel :
      (limit f g : ℕ) (r : Release World)
      → limit < r.k + f
      → limit < r.k + g
      → r.k ≤ limit
      → release b limit f r ≡ release b limit g r
  unfolding release
  release_fuel limit zero g r hf hg h = absurd (omega arith)
  release_fuel limit (suc f) zero r hf hg h = absurd (omega arith)
  release_fuel limit (suc f) (suc g) r hf hg h = elim (Bool-cases (any_on r.pump)) [
    | inr e ↦ rw e
    | inl e ↦ elim (Bool-cases (ltb limit (r.k + 1))) [
      | inl over ↦ rw e (rw over)
      | inr under ↦ rw e (
          rw under
            (release_fuel limit f g (release_round b r) (omega arith) (omega arith) (ground arith)))
    ]
  ]
