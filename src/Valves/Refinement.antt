-- ===== src/Valves/Refinement.antt =====
-- The one-second update of Valves carries out the plan.
use acionna.Prelude.{
  ℕ, ◌-◌, ◌<◌, ◌≤◌, ◌≡◌, ◌≢◌, refl, sym, ◌∙◌, ap, ◌⊎◌, inl, inr, Bool, true, false, arith, List, [],
  ◌∷◌, some, ◌==◌, ℤ, length, Bool-cases,
}
use mathlib.Core.Path.{subst}
use acionna.Types.{StatesFlag, disable, enable, StatesValves, is_automatic}
use acionna.Board.{Board}
use acionna.Valves.State.{Valves, Sector}
use acionna.Valves.Sequence.{
  ◌>>=◌, stop, find_next, Found, close_last, after_search, switch_sector, update,
}
use acionna.Valves.Opened.{Opened, flag_cases, Skipped}
use acionna.Valves.FindInverted.{find_next-Direct, find_next-Inverted, seeking}
use acionna.Valves.Range.{InRange, InOrder, SameRange, transfer, log-SameRange, last-SameRange}
use acionna.Valves.Cycle.{tail-SameRange, finish}
use acionna.Valves.Plan.{
  planned, Plan, running, over, plan_of, PlanStep, stay, open_next, end, plan_same, is_in_lem,
  Skipped-Without, after_to, after_none, before_to, before_none,
}

module _ (b : Board) where
  open b use {World}

  -- What the search finds is what the plan says: nothing, or its next sector.
  abbrev NextOf : Valves → Found b → Type 0
  NextOf v r =
      let rest = planned v.flag_inverted_sequence v.valve v.valve_current in
      ((r.0 ≡ 0) × (rest ≡ []))
      ⊎ ((r.0 ≢ 0)
          × Opened b (seeking v) r
          × (rest ≡ r.0 ∷ planned v.flag_inverted_sequence v.valve r.0))

  downwards :
      (v : Valves) (r : Found b)
      → length v.valve ≡ 11
      → v.flag_inverted_sequence ≡ enable
      → v.valve_current ≤ 12
      → Opened b (seeking v) r
      → 0 < r.0
      → r.0 < v.valve_current
      → Skipped (seeking v) r.0 v.valve_current
      → NextOf v r
  downwards v r l e k o z h s = inr (
    λ q. omega arith,
    o,
    rw e (
        before_to v.valve v.valve_current r.0 h
          (Skipped-Without (seeking v) r.0 v.valve_current l k s)
          (is_in_lem (seeking v) r.0 enable l z (omega arith) o.in_programme)),
  )

  upwards :
      (v : Valves) (r : Found b)
      → length v.valve ≡ 11
      → v.flag_inverted_sequence ≡ disable
      → v.valve_current ≤ 11
      → Opened b (seeking v) r
      → v.valve_current < r.0
      → r.0 ≤ 11
      → Skipped (seeking v) v.valve_current r.0
      → NextOf v r
  upwards v r l e k o h h' s = inr (
    λ q. omega arith,
    o,
    rw e (
        after_to v.valve (11 - v.valve_current) v.valve_current r.0 (omega arith) h h'
          (Skipped-Without (seeking v) v.valve_current r.0 l (omega arith) s)
          (is_in_lem (seeking v) r.0 enable l (omega arith) h' o.in_programme)),
  )

  next_found :
      (v : Valves) (w : World)
      → InRange v
      → v.state_valves ≡ StatesValves.automatic_switch
      → (r : Found b) × (find_next b v w ≡ some r) × NextOf v r
  next_found v w i a = elim (flag_cases v.flag_inverted_sequence) [
    | inl e ↦
        let h = subst (λ f. InOrder f v.valve_current) e (i.in_order a) in
        let (r, q, d) = find_next-Inverted b v w i.eleven h.0 h.1 e in
        (
          r,
          q,
          elim d [
            | inl (o, s) ↦ inl (
              o.none_found,
              rw e (
                  before_none v.valve v.valve_current
                    (Skipped-Without (seeking v) 0 v.valve_current i.eleven h.1 s)),
            )
            | inr (o, z, u, s) ↦ downwards v r i.eleven e h.1 o z u s
          ],
        )
    | inr e ↦
        let h = subst (λ f. InOrder f v.valve_current) e (i.in_order a) in
        let (r, q, d) = find_next-Direct b v w i.eleven h e in
        (
          r,
          q,
          elim d [
            | inl (o, s) ↦ inl (
              o.none_found,
              rw e (
                  after_none v.valve (11 - v.valve_current) v.valve_current (omega arith)
                    (Skipped-Without (seeking v) v.valve_current 12 i.eleven (omega arith) s)),
            )
            | inr (o, u, k, s) ↦ upwards v r i.eleven e h o u k s
          ],
        )
  ]

  -- The plan of a sequence that runs.
  plan_is :
      (v : Valves) (f : StatesFlag) (l : List Sector) (c : ℕ)
      → v.state_valves ≡ StatesValves.automatic_switch
      → v.flag_inverted_sequence ≡ f
      → v.valve ≡ l
      → v.valve_current ≡ c
      → plan_of v ≡ running c (planned f l c)
  plan_is v f l c a o s e = rw (a, o, s, e) refl

  after_same :
      (now : ℕ) (p : ℤ) (r : Found b) → r.0 ≢ 0 → SameRange r.1.0 (after_search b now p r).0
  unfolding after_search
  after_same now p r n =
      let z : (r.0 == 0) ≡ false = ground arith in
      let s = log-SameRange now p r.1.0 in
      rw z (record {
        same_valve = s.same_valve;
        same_order = s.same_order;
        same_state = s.same_state;
        same_current = s.same_current;
      })

  plan_ended : (now : ℕ) (p : ℤ) (r : Found b) → r.0 ≡ 0 → plan_of (after_search b now p r).0 ≡ over
  unfolding after_search stop
  plan_ended now p r z = rw z refl

  step_of : (t : Bool) (x x' y y' : Plan) → x ≡ x' → y ≡ y' → PlanStep t x' y' → PlanStep t x y
  step_of t x x' y y' e f s = rw (e, f) s

  step_after :
      (now : ℕ) (p : ℤ) (v : Valves) (r : Found b)
      → v.state_valves ≡ StatesValves.automatic_switch
      → NextOf v r
      → PlanStep true (plan_of v) (plan_of (after_search b now p r).0)
  step_after now p v r a (inl (z, e)) =
      step_of true (plan_of v) (running v.valve_current []) _ over
        (plan_is v _ _ _ a refl refl refl ∙ ap (running v.valve_current) e) (plan_ended now p r z)
        (end v.valve_current)
  step_after now p v r a (inr (n, o, e)) =
      let s = after_same now p r n in
      let rest = planned v.flag_inverted_sequence v.valve r.0 in
      step_of true (plan_of v) (running v.valve_current (r.0 ∷ rest)) _ (running r.0 rest)
        (plan_is v _ _ _ a refl refl refl ∙ ap (running v.valve_current) e)
        (plan_is (after_search b now p r).0 v.flag_inverted_sequence v.valve r.0
          (s.same_state ∙ o.same_state ∙ a) (s.same_order ∙ o.same_order)
          (s.same_valve ∙ o.same_sectors) (s.same_current ∙ o.current))
        (open_next v.valve_current r.0 rest)

  switch_refines :
      (now : ℕ) (p : ℤ) (v : Valves) (w : World)
      → InRange v
      → v.state_valves ≡ StatesValves.automatic_switch
      → (r : Valves × World) × (switch_sector b now p v w ≡ some r)
        × PlanStep true (plan_of v) (plan_of r.0)
  unfolding switch_sector
  switch_refines now p v w i a =
      let s = last-SameRange b v w in
      let (v1, w1) = close_last b v w in
      let (r, q, d) = next_found v1 w1 (transfer v v1 s i) (s.same_state ∙ a) in
      let x = (after_search b now p r).0 in
      (
        after_search b now p r,
        ap (λ o. o >>= λ r. some (after_search b now p r)) q,
        step_of true (plan_of v) (plan_of v1) (plan_of x) (plan_of x) (sym (plan_same v v1 s)) refl
            (step_after now p v1 r (s.same_state ∙ a) d),
      )

  timed : {t : Bool} {x y : Plan} (u : Bool) → t ≡ u → PlanStep u x y → PlanStep t x y
  timed u e s = rw e s

  -- With the eleven sectors and `valve_current` in range, in either order: while the sequence runs,
  -- each one-second update returns and is a second of the plan. With time left it leaves the sector
  -- and the rest of the plan; with none left it opens the plan's next sector, or ends the sequence
  -- where the plan has none.
  pub update-PlanStep :
      (now : ℕ) (p : ℤ) (v : Valves) (w : World)
      → InRange v
      → v.state_valves ≡ StatesValves.automatic_switch
      → (r : Valves × World) × (update b now p v w ≡ some r)
        × PlanStep (v.time_valve_remain == 0) (plan_of v) (plan_of r.0)
  unfolding update
  update-PlanStep now p v w i a =
      let t : is_automatic v.state_valves ≡ true = ap is_automatic a in
      let v1 = record v { time_valve_remain = v.time_valve_remain - 1 } in
      elim (Bool-cases (v.time_valve_remain == 0)) [
        | inl f ↦
            let (r, q, d) = switch_refines now p v w i a in
            let x = (finish b p r).0 in
            (
              finish b p r,
              rw (t, f) (ap (λ o. o >>= λ y. some (finish b p y)) q),
              timed true f (
                  step_of true (plan_of v) (plan_of v) (plan_of x) (plan_of (r.0)) refl
                    (plan_same (r.0) x (tail-SameRange b p r)) d),
            )
        | inr f ↦
            let x = (finish b p (v1, w)).0 in
            let e = plan_is v _ _ _ a refl refl refl in
            (
              finish b p (v1, w),
              rw (t, f) refl,
              timed false f (
                  step_of false (plan_of v) _ (plan_of x) _ e
                    (plan_same v1 x (tail-SameRange b p (v1, w))
                      ∙ plan_is v1 _ _ _ a refl refl refl)
                    (stay v.valve_current _)),
            )
      ]
