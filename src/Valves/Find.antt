-- ===== src/Valves/Find.antt =====
-- Valves::find_next towards higher numbers finds the next programmed sector.
use acionna.Prelude.{
  ℕ, zero, suc, ◌+◌, ◌<◌, ◌≤◌, ◌≡◌, refl, ◌∙◌, inl, inr, true, arith, some, ltb, ap, if◌then◌else◌,
  u8, length, get_or,
}
use native.Mathlib.Decide.{dec_lt}
use acionna.Types.{StatesFlag, disable, enable, is_enable}
use acionna.Board.{Board}
use acionna.Valves.State.{Valves, n_valves, empty_sector, get_valve_programmed}
use acionna.Valves.Sequence.{open_valve, cycle_end, find_direct, Found}
use acionna.Valves.Opened.{
  Direct, at, above, at-Opened, flag_cases, found_id, open_valve-Opened, programmed_of,
}

module _ (b : Board) where
  open b use {World}

  -- One turn of the loop, upwards.
  up_end :
      (fuel : ℕ) (v : Valves) (w : World)
      → v.valve_current ≡ 11
      → find_direct b (suc fuel) v w ≡ some (cycle_end b (at 12 v) w)
  unfolding find_direct
  up_end fuel v w e = rw e refl

  up_step :
      (fuel : ℕ) (v : Valves) (w : World) (f : StatesFlag)
      → v.valve_current < 11
      → get_valve_programmed (suc v.valve_current) v ≡ some f
      → find_direct b (suc fuel) v w ≡ (
          if is_enable f
          then some (open_valve b (at (suc v.valve_current) v) w)
          else find_direct b fuel (at (suc v.valve_current) v) w)
  unfolding find_direct
  up_step fuel v w f h p =
      let e : u8 (v.valve_current + 1) ≡ suc v.valve_current = omega arith in
      let t : ltb (suc v.valve_current) (n_valves + 1) ≡ true = ground arith in rw (e, t, p) refl

  skip_up :
      (v : Valves) (r : Found b)
      → get_valve_programmed (suc v.valve_current) v ≡ some disable
      → Direct b (at (suc v.valve_current) v) (suc v.valve_current) r
      → Direct b v v.valve_current r
  skip_up v r p (inl (o, s)) = inl (
    record {
      none_found = o.none_found;
      current = o.current;
      switched_off = o.switched_off;
      outputs_kept = o.outputs_kept;
      same_sectors = o.same_sectors;
      same_order = o.same_order;
    },
    above v v.valve_current 12 p s,
  )
  skip_up v r p (inr (o, l, u, s)) =
      inr (at-Opened b (suc v.valve_current) v r o, omega arith, u, above v v.valve_current r.0 p s)

  pub find_direct_lem :
      (fuel : ℕ) (v : Valves) (w : World)
      → length v.valve ≡ 11
      → v.valve_current ≤ 11
      → 12 ≤ v.valve_current + fuel
      → (r : Found b) × (find_direct b fuel v w ≡ some r) × Direct b v v.valve_current r
  find_direct_lem zero v w l h f = absurd (omega arith)
  find_direct_lem (suc fuel) v w l h f = elim (dec_lt v.valve_current 11) [
    | Dec.no n ↦ (
      cycle_end b (at 12 v) w,
      up_end fuel v w (omega arith),
      inl (
        record {
          none_found = refl;
          current = refl;
          switched_off = refl;
          outputs_kept = refl;
          same_sectors = refl;
          same_order = refl;
        },
        λ j g g'. absurd (omega arith),
      ),
    )
    | Dec.yes y ↦
        let flag = (get_or v.valve v.valve_current empty_sector).programmed in
        let p = programmed_of v v.valve_current l y in
        let step = up_step fuel v w flag y p in
        elim (flag_cases flag) [
          | inl e ↦
              let v1 = at (suc v.valve_current) v in
              let on : get_valve_programmed (suc v.valve_current) v ≡ some enable = p ∙ ap some e in
              let o =
                at-Opened b (suc v.valve_current) v (open_valve b v1 w)
                  (open_valve-Opened b v1 w (omega arith) (omega arith) on) in
              (
                open_valve b v1 w,
                step
                    ∙ ap
                        (λ g.
                          if is_enable g then some (open_valve b v1 w) else find_direct b fuel v1 w)
                        e,
                inr (
                  o,
                  omega (arith, found_id b v1 w),
                  omega (arith, found_id b v1 w),
                  λ j g g'. absurd (omega (arith, found_id b v1 w)),
                ),
              )
          | inr e ↦
              let v1 = at (suc v.valve_current) v in
              let (r, q, d) = find_direct_lem fuel v1 w l (omega arith) (omega arith) in
              (
                r,
                step
                    ∙ ap
                        (λ g.
                          if is_enable g then some (open_valve b v1 w) else find_direct b fuel v1 w)
                        e
                    ∙ q,
                skip_up v r (p ∙ ap some e) d,
              )
        ]
  ]
