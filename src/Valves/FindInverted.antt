-- ===== src/Valves/FindInverted.antt =====
-- Valves::find_next towards lower numbers, and find_next whole.
use acionna.Prelude.{
  ℕ, zero, suc, ◌-◌, ◌<◌, ◌≤◌, ◌≡◌, refl, ap, ◌∙◌, ◌⊎◌, inl, inr, false, arith, none, some, ◌==◌,
  if◌then◌else◌, dec8, length, get_or, get_elem?-none,
}
use mathlib.Core.Path.{subst}
use acionna.Types.{StatesFlag, disable, enable, is_enable}
use acionna.Board.{Board}
use acionna.Valves.State.{Valves, empty_sector, get_valve_programmed}
use acionna.Valves.Sequence.{
  ◌>>=◌, open_valve, cycle_end, find_direct, find_inverted, find_next, Found,
}
use acionna.Valves.Opened.{
  Skipped, Opened, Ended, Direct, at, below, at-Opened, flag_cases, found_id, open_valve-Opened,
  programmed_of,
}
use acionna.Valves.Find.{find_direct_lem}

abbrev pub seeking : Valves → Valves
seeking v = record v { flag_valve_found = disable }

abbrev pub Inverted : (b : Board) → Valves → ℕ → Found b → Type 0
Inverted b v from r =
    (Ended b v r × Skipped v 0 from)
    ⊎ (Opened b v r × (0 < r.0) × (r.0 < from) × Skipped v r.0 from)

outside : (v : Valves) → length v.valve ≡ 11 → get_valve_programmed 255 (at 255 v) ≡ none
outside v l = rw (get_elem?-none v.valve 254 (omega arith), get_valve_programmed) refl

module _ (b : Board) where
  open b use {World}

  -- One turn of the loop, downwards from `suc c`.
  down_end :
      (fuel : ℕ) (v : Valves) (w : World)
      → find_inverted b (suc fuel) (at 1 v) w ≡ some (cycle_end b (at 0 v) w)
  unfolding find_inverted
  down_end fuel v w = refl

  down_step :
      (fuel c : ℕ) (v : Valves) (w : World) (f : StatesFlag)
      → 0 < c
      → c < 12
      → get_valve_programmed c v ≡ some f
      → find_inverted b (suc fuel) (at (suc c) v) w
        ≡ (if is_enable f then some (open_valve b (at c v) w) else find_inverted b fuel (at c v) w)
  unfolding find_inverted
  down_step fuel zero v w f h h' p = absurd (omega arith)
  down_step fuel (suc c) v w f h h' p =
      let e : dec8 (suc (suc c)) ≡ suc c = omega arith in
      let t : (suc c == 0) ≡ false = ground arith in rw (e, t, p) refl

  skip_down :
      (c : ℕ) (v : Valves) (r : Found b)
      → get_valve_programmed c v ≡ some disable
      → Inverted b v c r
      → Inverted b v (suc c) r
  skip_down c v r p (inl (o, s)) = inl (o, below v c p 0 s)
  skip_down c v r p (inr (o, l, u, s)) = inr (o, l, omega arith, below v c p r.0 s)

  find_inverted_lem :
      (fuel c : ℕ) (v : Valves) (w : World)
      → length v.valve ≡ 11
      → c < 12
      → c < fuel
      → (r : Found b) × (find_inverted b fuel (at (suc c) v) w ≡ some r) × Inverted b v (suc c) r
  find_inverted_lem zero c v w l h f = absurd (omega arith)
  find_inverted_lem (suc fuel) zero v w l h f = (
    cycle_end b (at 0 v) w,
    down_end fuel v w,
    inl (
      record {
        none_found = refl;
        current = refl;
        switched_off = refl;
        outputs_kept = refl;
        same_sectors = refl;
        same_order = refl;
      },
      λ j g g'. absurd (omega arith),
    ),
  )
  find_inverted_lem (suc fuel) (suc c) v w l h f =
      let flag = (get_or v.valve c empty_sector).programmed in
      let p = programmed_of v c l (omega arith) in
      let v1 = at (suc c) v in
      let step = down_step fuel (suc c) v w flag (omega arith) h p in
      elim (flag_cases flag) [
        | inl e ↦
            let on : get_valve_programmed (suc c) v ≡ some enable = p ∙ ap some e in
            let o =
              at-Opened b (suc c) v (open_valve b v1 w)
                (open_valve-Opened b v1 w (omega arith) (omega arith) on) in
            (
              open_valve b v1 w,
              step
                  ∙ ap
                      (λ g.
                        if is_enable g then some (open_valve b v1 w) else find_inverted b fuel v1 w)
                      e,
              inr (
                o,
                omega (arith, found_id b v1 w),
                omega (arith, found_id b v1 w),
                λ j g g'. absurd (omega (arith, found_id b v1 w)),
              ),
            )
        | inr e ↦
            let (r, q, d) = find_inverted_lem fuel c v w l (omega arith) (omega arith) in
            (
              r,
              step
                  ∙ ap
                      (λ g.
                        if is_enable g then some (open_valve b v1 w) else find_inverted b fuel v1 w)
                      e
                  ∙ q,
              skip_down (suc c) v r (p ∙ ap some e) d,
            )
      ]

  goes_up :
      (v : Valves) (w : World)
      → v.flag_inverted_sequence ≡ disable
      → find_next b v w ≡ find_direct b 256 (seeking v) w
  unfolding find_next
  goes_up v w e =
      ap
        (λ f.
          if is_enable f
          then find_inverted b 256 (seeking v) w
          else find_direct b 256 (seeking v) w)
        e

  goes_down :
      (v : Valves) (w : World)
      → v.flag_inverted_sequence ≡ enable
      → find_next b v w ≡ find_inverted b 256 (seeking v) w
  unfolding find_next
  goes_down v w e =
      ap
        (λ f.
          if is_enable f
          then find_inverted b 256 (seeking v) w
          else find_direct b 256 (seeking v) w)
        e

  escapes :
      (fuel : ℕ) (v : Valves) (w : World)
      → length v.valve ≡ 11
      → find_inverted b (suc fuel) (at 0 v) w ≡ none
  unfolding find_inverted
  escapes fuel v w l =
      ap
        (λ o. o >>= λ flag.
          if is_enable flag
          then some (open_valve b (at 255 v) w)
          else find_inverted b fuel (at 255 v) w)
        (outside v l)

  -- With the eleven sectors and `valve_current` at most 11, the search upwards returns: it leaves
  -- out the sectors that are not programmed, and either opens the first one that is, the time cut
  -- to whole minutes and its output high, or ends the cycle because there is none.
  pub find_next-Direct :
      (v : Valves) (w : World)
      → length v.valve ≡ 11
      → v.valve_current ≤ 11
      → v.flag_inverted_sequence ≡ disable
      → (r : Found b) × (find_next b v w ≡ some r) × Direct b (seeking v) v.valve_current r
  find_next-Direct v w l h e =
      let (r, q, d) = find_direct_lem b 256 (seeking v) w l h (omega arith) in
      (r, goes_up v w e ∙ q, d)

  -- With the eleven sectors and `valve_current` from 1 to 12, the search downwards returns: it leaves
  -- out the sectors that are not programmed, and either opens the first one that is, the time cut
  -- to whole minutes and its output high, or ends the cycle because there is none.
  pub find_next-Inverted :
      (v : Valves) (w : World)
      → length v.valve ≡ 11
      → 0 < v.valve_current
      → v.valve_current ≤ 12
      → v.flag_inverted_sequence ≡ enable
      → (r : Found b) × (find_next b v w ≡ some r) × Inverted b (seeking v) v.valve_current r
  find_next-Inverted v w l h h' e =
      let n : suc (v.valve_current - 1) ≡ v.valve_current = omega arith in
      let start =
        find_inverted_lem 256 (v.valve_current - 1) (seeking v) w l (omega arith) (omega arith) in
      let (r, q, d) =
        subst
          (λ k.
            (r : Found b) × (find_inverted b 256 (at k (seeking v)) w ≡ some r)
            × Inverted b (seeking v) k r)
          n start in
      (r, goes_down v w e ∙ q, d)

  -- With the eleven sectors, the search downwards from a `valve_current` of 0 has the result `none`.
  find_next_escapes :
      (v : Valves) (w : World)
      → length v.valve ≡ 11
      → v.valve_current ≡ 0
      → v.flag_inverted_sequence ≡ enable
      → find_next b v w ≡ none
  find_next_escapes v w l h e =
      goes_down v w e
      ∙ ap (λ k. find_inverted b 256 (at k (seeking v)) w) h
      ∙ escapes 255 (seeking v) w l
