-- ===== src/Controller/Search.antt =====
-- The search of operation_pump_start_match_optimized for the next event with a cycle left.
use acionna.Prelude.{
  ℕ, zero, suc, ◌-◌, ◌<◌, ◌≡◌, refl, ap, ◌⊎◌, inl, inr, Bool, true, false, Bool-cases, ltb, arith,
}
use acionna.Types.{enable}
use acionna.Board.{Board}
use acionna.Controller.State.{Acionna, Optimized}
use acionna.Controller.Schedule.{
  current_event, run_cycle, search_round, search, searching, with_shutdown,
}

clash : {A : Type 0} (t : Bool) → t ≡ true → t ≡ false → A
clash t e f = absurd (ground arith)

flag_stops : (x : Acionna) → x.optimized.flag_time_next_config ≡ enable → searching x ≡ false
flag_stops x e = elim (Bool-cases (ltb x.optimized.event_i x.optimized.event_n)) [
  | inl t ↦ rw (t, e) refl
  | inr t ↦ rw t refl
]

module _ (b : Board) where
  open b use {World}

  -- What one round does to the counters.
  abbrev Round : Acionna → Acionna → Type 0
  Round a r =
      ((r.optimized.event_i ≡ suc a.optimized.event_i)
        × (r.optimized.event_n ≡ a.optimized.event_n)
        × (a.optimized.event_i < a.optimized.event_n))
      ⊎ (searching r ≡ false)

  shutdown-optimized : (n : ℕ) (a : Acionna) → (with_shutdown n a).optimized ≡ a.optimized
  shutdown-optimized n a = ground arith

  run_cycle-flag :
      (a : Acionna) (w : World) → (run_cycle b a w).0.optimized.flag_time_next_config ≡ enable
  unfolding run_cycle
  run_cycle-flag a w =
      ap (λ (o : Optimized). o.flag_time_next_config)
        (shutdown-optimized (current_event a.optimized).time_to_shutdown _)

  round : (a : Acionna) (w : World) → Round a (search_round b a w).0
  unfolding search_round
  round a w = elim (Bool-cases (ltb a.optimized.event_i a.optimized.event_n)) [
    | inr e ↦ rw e (inr (rw e refl))
    | inl e ↦
        rw e (elim (Bool-cases (ltb a.optimized.cycle_i (current_event a.optimized).cycles_n)) [
          | inl f ↦ rw f (inr (flag_stops (run_cycle b a w).0 (run_cycle-flag a w)))
          | inr f ↦ rw f (inl (omega arith, refl, ground arith))
        ])
  ]

  -- With fuel for more rounds than there are events left, the search for a cycle to run ends by
  -- itself: no event is left, or the flag that asks for the next start is set.
  pub search_ends :
      (fuel : ℕ) (a : Acionna) (w : World)
      → a.optimized.event_n - a.optimized.event_i < fuel
      → searching (search b fuel a w).0 ≡ false
  unfolding search
  search_ends zero a w h = absurd (omega arith)
  search_ends (suc fuel) a w h =
      let r = search_round b a w in
      elim (Bool-cases (searching (r.0))) [
        | inr e ↦ rw e e
        | inl e ↦ rw e (elim (round a w) [
          | inr f ↦ clash (searching (r.0)) e f
          | inl (i, n, l) ↦ search_ends fuel (r.0) (r.1) (omega arith)
        ])
      ]

  -- Two amounts of fuel for more rounds than there are events left give the same search.
  pub search_fuel_lem :
      (fuel fuel' : ℕ) (a : Acionna) (w : World)
      → a.optimized.event_n - a.optimized.event_i < fuel
      → a.optimized.event_n - a.optimized.event_i < fuel'
      → search b fuel a w ≡ search b fuel' a w
  unfolding search
  search_fuel_lem zero fuel' a w h h' = absurd (omega arith)
  search_fuel_lem (suc fuel) zero a w h h' = absurd (omega arith)
  search_fuel_lem (suc fuel) (suc fuel') a w h h' =
      let r = search_round b a w in
      elim (Bool-cases (searching (r.0))) [
        | inr e ↦ rw e refl
        | inl e ↦ rw e (elim (round a w) [
          | inr f ↦ clash (searching (r.0)) e f
          | inl (i, n, l) ↦ search_fuel_lem fuel fuel' (r.0) (r.1) (omega arith) (omega arith)
        ])
      ]
