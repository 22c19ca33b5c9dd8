-- ===== src/Valves/Cycle.antt =====
-- The one-second updates of Valves bring every cycle of the sectors to its end.
use acionna.Prelude.{
  ℕ, zero, suc, ◌+◌, ◌-◌, ◌<◌, ◌≡◌, refl, sym, ap, ◌∙◌, inl, inr, arith, Option, some, ◌==◌, length,
  ℤ, true, false,
}
use mathlib.Core.Path.{subst}
use acionna.Types.{StatesValves, is_automatic}
use acionna.Board.{Board}
use acionna.Valves.State.{Valves, set_valve_state}
use acionna.Valves.Log.{make_log_update, pressure_avg}
use acionna.Valves.Sequence.{◌>>=◌, start, delayed_close, count_second, update}
use acionna.Valves.Range.{
  InRange, left, Nearer, SameRange, near_same, start-InRange, transfer, close-SameRange,
  update_log-SameRange,
}
use acionna.Valves.Safe.{switch-InRange, second-InRange}

module _ (b : Board) where
  open b use {World}

  -- `n` seconds, from second `i` on; `now` and `pressure` are what the clock and the pipe give.
  abbrev pub seconds : (ℕ → ℕ) → (ℕ → ℤ) → ℕ → ℕ → Valves → World → Option (Valves × World)
  seconds now pressure i zero v w = some (v, w)
  seconds now pressure i (suc n) v w =
      update b (now i) (pressure i) v w >>= λ r. seconds now pressure (i + 1) n (r.0) (r.1)

  -- Some seconds later the sequence is off.
  abbrev pub Ends : (ℕ → ℕ) → (ℕ → ℤ) → ℕ → Valves → World → Type 0
  Ends now pressure i v w =
      (n : ℕ) × (r : Valves × World) × (seconds now pressure i n v w ≡ some r)
      × (r.0.state_valves ≡ StatesValves.system_off)

  -- The end of an update changes nothing that the order depends on.
  pub tail-SameRange :
      (p : ℤ) (r : Valves × World)
      → SameRange r.0 (count_second b p (delayed_close b (r.0) (r.1))).0
  tail-SameRange p r =
      let x = (delayed_close b (r.0) (r.1)).0 in
      let s = close-SameRange b (r.0) (r.1) in
      let t = update_log-SameRange p x in
      record {
        same_valve = t.same_valve ∙ s.same_valve;
        same_order = t.same_order ∙ s.same_order;
        same_state = t.same_state ∙ s.same_state;
        same_current = t.same_current ∙ s.same_current;
      }

  abbrev pub finish : ℤ → Valves × World → Valves × World
  finish p r = count_second b p (delayed_close b (r.0) (r.1))

  tail_remain :
      (p : ℤ) (v : Valves) (w : World) → (finish p (v, w)).0.time_valve_remain ≡ v.time_valve_remain
  unfolding delayed_close make_log_update pressure_avg set_valve_state
  tail_remain p v w = ground arith

  -- A second in which the sector's time is over.
  over :
      (now : ℕ) (p : ℤ) (v : Valves) (w : World)
      → InRange v
      → v.state_valves ≡ StatesValves.automatic_switch
      → v.time_valve_remain ≡ 0
      → (r : Valves × World) × (update b now p v w ≡ some r) × InRange r.0 × Nearer v r.0
  unfolding update
  over now p v w i a z =
      let (r, q, d, n) = switch-InRange b now p v w i a in
      let t : is_automatic v.state_valves ≡ true = ap is_automatic a in
      let f : (v.time_valve_remain == 0) ≡ true = ground arith in
      (
        finish p r,
        rw (t, f) (ap (λ o. o >>= λ x. some (finish p x)) q),
        second-InRange b p r d,
        near_same v (r.0) (finish p r).0 (tail-SameRange p r) n,
      )

  -- A second before that.
  counts :
      (now : ℕ) (p : ℤ) (v : Valves) (w : World) (k : ℕ)
      → InRange v
      → v.state_valves ≡ StatesValves.automatic_switch
      → v.time_valve_remain ≡ suc k
      → (r : Valves × World) × (update b now p v w ≡ some r)
        × InRange r.0
        × SameRange v r.0
        × (r.0.time_valve_remain ≡ k)
  unfolding update
  counts now p v w k i a z =
      let v1 = record v { time_valve_remain = v.time_valve_remain - 1 } in
      let same : SameRange v v1 = record {
        same_valve = refl;
        same_order = refl;
        same_state = refl;
        same_current = refl;
      } in
      let s = tail-SameRange p (v1, w) in
      let t : is_automatic v.state_valves ≡ true = ap is_automatic a in
      let f : (v.time_valve_remain == 0) ≡ false = ground arith in
      (
        finish p (v1, w),
        rw (t, f) refl,
        second-InRange b p (v1, w) (transfer v v1 same i),
        record {
          same_valve = s.same_valve;
          same_order = s.same_order;
          same_state = s.same_state;
          same_current = s.same_current;
        },
        tail_remain p v1 w ∙ omega arith,
      )

  -- One more second before.
  sooner :
      (now : ℕ → ℕ) (pressure : ℕ → ℤ) (i : ℕ) (v : Valves) (w : World) (r : Valves × World)
      → update b (now i) (pressure i) v w ≡ some r
      → Ends now pressure (i + 1) (r.0) (r.1)
      → Ends now pressure i v w
  sooner now pressure i v w r e (n, s, q, o) =
      (suc n, s, ap (λ m. m >>= λ x. seconds now pressure (i + 1) n (x.0) (x.1)) e ∙ q, o)

  -- `k` bounds the sectors that may still come, `t` is what is left of the current one's time.
  count_down :
      (now : ℕ → ℕ) (pressure : ℕ → ℤ) (k t i : ℕ) (v : Valves) (w : World)
      → InRange v
      → v.state_valves ≡ StatesValves.automatic_switch
      → left v.flag_inverted_sequence v.valve_current < k
      → v.time_valve_remain ≡ t
      → Ends now pressure i v w
  count_down now pressure zero t i v w g a l z = absurd (omega arith)
  count_down now pressure (suc k) (suc t) i v w g a l z =
      let (r, e, h, s, m) = counts (now i) (pressure i) v w t g a z in
      sooner now pressure i v w r e (
        count_down now pressure (suc k) t (i + 1) (r.0) (r.1) h (s.same_state ∙ a)
          (subst (λ f. left f r.0.valve_current < suc k) (sym s.same_order)
            (subst (λ c. left v.flag_inverted_sequence c < suc k) (sym s.same_current) l))
          m)
  count_down now pressure (suc k) zero i v w g a l z =
      let (r, e, h, n) = over (now i) (pressure i) v w g a z in
      sooner now pressure i v w r e (elim n [
        | inl o ↦ (0, r, refl, o)
        | inr (x, y, m) ↦
            count_down now pressure k r.0.time_valve_remain (i + 1) (r.0) (r.1) h (x ∙ a)
              (subst (λ f. left f r.0.valve_current < k) (sym y) (omega arith)) refl
      ])

  -- With the eleven sectors, in either order, and whatever the clock and the pressure give meanwhile:
  -- after `start`, some number of one-second updates later the sequence is off, each of them having
  -- returned. Nothing but the updates is assumed to happen until then.
  pub start-Ends :
      (now : ℕ → ℕ) (pressure : ℕ → ℤ) (v : Valves) (w : World)
      → length v.valve ≡ 11
      → let r = start b v w in Ends now pressure 0 r.0 r.1
  unfolding start
  start-Ends now pressure v w l =
      let r = start b v w in
      count_down now pressure (suc (left r.0.flag_inverted_sequence r.0.valve_current))
        r.0.time_valve_remain 0 (r.0) (r.1) (start-InRange b v w l) refl (omega arith) refl
