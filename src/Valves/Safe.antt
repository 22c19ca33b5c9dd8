-- ===== src/Valves/Safe.antt =====
-- Valves::update stays inside the array of sectors.
use acionna.Prelude.{ℕ, ◌-◌, ◌≡◌, refl, ap, ◌∙◌, inl, inr, false, arith, some, ◌==◌, ℤ, Bool-cases}
use acionna.Types.{is_automatic, StatesValves}
use acionna.Board.{Board}
use acionna.Valves.State.{Valves}
use acionna.Valves.Log.{make_log, make_log_update}
use acionna.Valves.Sequence.{
  ◌>>=◌, stop, Found, close_last, after_search, switch_sector, delayed_close, count_second, update,
}
use acionna.Valves.Range.{
  InRange, transfer, log-SameRange, update_log-SameRange, automatic_of, close-SameRange,
  last-SameRange, stop-InRange, found, FoundIn, Nearer, near_same, from_same,
}

module _ (b : Board) where
  open b use {World}

  after-InRange :
      (now : ℕ) (p : ℤ) (r : Found b) → InRange r.1.0 → InRange (after_search b now p r).0
  unfolding after_search
  after-InRange now p r i = elim (Bool-cases (r.0 == 0)) [
    | inl e ↦ rw e (stop-InRange b p r.1.0 r.1.1 i.eleven)
    | inr e ↦ rw e (
        transfer (make_log now p r.1.0) (record (make_log now p r.1.0) { time_valve_elapsed = 0 })
          (record { same_valve = refl; same_order = refl; same_state = refl; same_current = refl })
          (transfer r.1.0 (make_log now p r.1.0) (log-SameRange now p r.1.0) i))
  ]

  after-Nearer :
      (now : ℕ) (p : ℤ) (v : Valves) (r : Found b)
      → FoundIn b v r
      → Nearer v (after_search b now p r).0
  unfolding after_search stop
  after-Nearer now p v r (i, inl (z, e)) = rw z (inl refl)
  after-Nearer now p v r (i, inr (n, h)) =
      let z : (r.0 == 0) ≡ false = ground arith in
      rw z (near_same v r.1.0 (make_log now p r.1.0) (log-SameRange now p r.1.0) h)

  -- The search at the end of a sector's time returns, and the sequence comes nearer to its end.
  pub switch-InRange :
      (now : ℕ) (p : ℤ) (v : Valves) (w : World)
      → InRange v
      → v.state_valves ≡ StatesValves.automatic_switch
      → (r : Valves × World) × (switch_sector b now p v w ≡ some r) × InRange r.0 × Nearer v r.0
  unfolding switch_sector
  switch-InRange now p v w i a =
      let s = last-SameRange b v w in
      let (v1, w1) = close_last b v w in
      let (r, q, d) = found b v1 w1 (transfer v v1 s i) (s.same_state ∙ a) in
      (
        after_search b now p r,
        ap (λ o. o >>= λ r. some (after_search b now p r)) q,
        after-InRange now p r d.0,
        from_same v v1 s (after_search b now p r).0 (after-Nearer now p v1 r d),
      )

  count-InRange : (p : ℤ) (r : Valves × World) → InRange r.0 → InRange (count_second b p r).0
  count-InRange p r i =
      let v = make_log_update p (r.0) in
      transfer v (count_second b p r).0
        (record { same_valve = refl; same_order = refl; same_state = refl; same_current = refl })
        (transfer (r.0) v (update_log-SameRange p (r.0)) i)

  pub second-InRange :
      (p : ℤ) (r : Valves × World)
      → InRange r.0
      → InRange (count_second b p (delayed_close b (r.0) (r.1))).0
  second-InRange p r i =
      count-InRange p (delayed_close b (r.0) (r.1))
        (transfer (r.0) (delayed_close b (r.0) (r.1)).0 (close-SameRange b (r.0) (r.1)) i)

  -- With the eleven sectors and, while the sequence runs, `valve_current` from 1 to 12 downwards or
  -- at most 11 upwards, the one-second update reads inside the array of sectors, whatever the
  -- outputs, the times and the pressure: it returns, and the same holds of what it leaves.
  pub update-InRange :
      (now : ℕ) (p : ℤ) (v : Valves) (w : World)
      → InRange v
      → (r : Valves × World) × (update b now p v w ≡ some r) × InRange r.0
  unfolding update
  update-InRange now p v w i = elim (Bool-cases (is_automatic v.state_valves)) [
    | inr e ↦ rw e ((v, w), refl, i)
    | inl e ↦ rw e (elim (Bool-cases (v.time_valve_remain == 0)) [
      | inl z ↦ rw z (
          let (r, q, d, _) = switch-InRange now p v w i (automatic_of v.state_valves e) in
          (
            count_second b p (delayed_close b (r.0) (r.1)),
            ap (λ o. o >>= λ r. some (count_second b p (delayed_close b (r.0) (r.1)))) q,
            second-InRange p r d,
          ))
      | inr z ↦ rw z (
          let v1 = record v { time_valve_remain = v.time_valve_remain - 1 } in
          (
            count_second b p (delayed_close b v1 w),
            refl,
            second-InRange p (v1, w)
                (transfer v v1
                  (record {
                    same_valve = refl;
                    same_order = refl;
                    same_state = refl;
                    same_current = refl;
                  })
                  i),
          ))
    ])
  ]
