-- ===== src/Valves/Opened.antt =====
-- What Valves::find_next leaves when it opens a sector or ends the cycle.
use acionna.Prelude.{
  ℕ, zero, suc, ◌-◌, ◌*◌, ◌<◌, ◌≤◌, ◌≡◌, refl, sym, ◌∙◌, ◌⊎◌, inl, inr, true, arith, some, ◌==◌,
  leb, not, ◌&&◌, ap, u32, length, get_or, get_elem?-eq-get_or,
}
use native.Mathlib.Decide.{dec_lt}
use acionna.Types.{StatesFlag, disable, enable, StatesValves}
use acionna.Board.{Board}
use acionna.Bits.{bit}
use acionna.Expander
use acionna.Expander.Laws.{bit-write}
use acionna.Valves.State.{
  Valves, n_valves, empty_sector, get_valve_programmed, get_valve_time, set_valve_state,
}
use acionna.Valves.Sequence.{open_valve, Found}

-- Every sector between the two, these not included, is out of the programme.
abbrev pub Skipped : Valves → ℕ → ℕ → Type 0
Skipped v low high = (j : ℕ) → low < j → j < high → get_valve_programmed j v ≡ some disable

-- What `find_next` leaves where it finds sector `r.0`.
pub record Opened (b : Board) (v : Valves) (r : Found b) : Type 0 where
  pub in_programme : get_valve_programmed r.0 v ≡ some enable
  pub current : r.1.0.valve_current ≡ r.0
  pub whole_minutes : r.1.0.time_valve_remain ≡ u32 (get_valve_time r.0 v * 60)
  pub driven : bit (r.0 - 1) r.1.0.load.output ≡ 1
  pub same_state : r.1.0.state_valves ≡ v.state_valves
  pub same_sectors : r.1.0.valve ≡ v.valve
  pub same_order : r.1.0.flag_inverted_sequence ≡ v.flag_inverted_sequence

-- What it leaves at the end of the cycle.
pub record Ended (b : Board) (v : Valves) (r : Found b) : Type 0 where
  pub none_found : r.0 ≡ 0
  pub current : r.1.0.valve_current ≡ 0
  pub switched_off : r.1.0.state_valves ≡ StatesValves.system_off
  pub outputs_kept : r.1.0.load ≡ v.load
  pub same_sectors : r.1.0.valve ≡ v.valve
  pub same_order : r.1.0.flag_inverted_sequence ≡ v.flag_inverted_sequence

abbrev pub Direct : (b : Board) → Valves → ℕ → Found b → Type 0
Direct b v from r =
    (Ended b v r × Skipped v from 12)
    ⊎ (Opened b v r × (from < r.0) × (r.0 ≤ 11) × Skipped v from r.0)

pub programmed_of :
    (v : Valves) (i : ℕ)
    → length v.valve ≡ 11
    → i < 11
    → get_valve_programmed (suc i) v ≡ some ((get_or v.valve i empty_sector).programmed)
programmed_of v i l h =
    rw (get_elem?-eq-get_or v.valve i empty_sector (omega arith), get_valve_programmed) refl

abbrev pub at : ℕ → Valves → Valves
at c v = record v { valve_current = c }

programmed-at :
    (c id : ℕ) (v : Valves) → get_valve_programmed id (at c v) ≡ get_valve_programmed id v
programmed-at c zero v = refl
programmed-at c (suc i) v = refl

time-at : (c id : ℕ) (v : Valves) → get_valve_time id (at c v) ≡ get_valve_time id v
unfolding get_valve_time
time-at c zero v = refl
time-at c (suc i) v = refl

pub flag_cases : (f : StatesFlag) → (f ≡ enable) ⊎ (f ≡ disable)
flag_cases disable = inr refl
flag_cases enable = inl refl

pub above :
    (v : Valves) (c high : ℕ)
    → get_valve_programmed (suc c) v ≡ some disable
    → Skipped (at (suc c) v) (suc c) high
    → Skipped v c high
above v c high p s j h h' = elim (dec_lt (suc c) j) [
  | Dec.yes l ↦ sym (programmed-at (suc c) j v) ∙ s j l h'
  | Dec.no n ↦ let e : suc c ≡ j = omega arith in ap (λ i. get_valve_programmed i v) (sym e) ∙ p
]

pub below :
    (v : Valves) (c : ℕ)
    → get_valve_programmed c v ≡ some disable
    → (low : ℕ) → Skipped v low c
    → Skipped v low (suc c)
below v c p low s j h h' = elim (dec_lt j c) [
  | Dec.yes l ↦ s j h l
  | Dec.no n ↦ let e : c ≡ j = omega arith in ap (λ i. get_valve_programmed i v) (sym e) ∙ p
]

guard_of : (i : ℕ) → i < 11 → (not (suc i == 0) && leb (suc i) n_valves) ≡ true
guard_of i h = ground arith

module _ (b : Board) where
  open b use {World}

  driven_bit :
      (id : ℕ) (v : Valves) (w : World)
      → 0 < id
      → id ≤ 11
      → (bit (id - 1) (set_valve_state b id 1 v w).0.load.output ≡ 1)
        × ((set_valve_state b id 1 v w).0 ≡ record v { load = (Expander.write b id 1 v.load w).0 })
  unfolding set_valve_state
  driven_bit zero v w h h' = absurd (omega arith)
  driven_bit (suc i) v w h h' = rw (guard_of i (omega arith)) (
    ground (arith, bit-write b (suc i) 1 i v.load w (omega arith) (omega arith) (omega arith)),
    refl,
  )

  pub open_valve-Opened :
      (v : Valves) (w : World)
      → 0 < v.valve_current
      → v.valve_current ≤ 11
      → get_valve_programmed v.valve_current v ≡ some enable
      → Opened b v (open_valve b v w)
  unfolding open_valve
  open_valve-Opened v w h h' p =
      let v1 = record v {
        flag_valve_found = enable;
        time_valve_remain = u32 (get_valve_time v.valve_current v * 60);
      } in
      let d = driven_bit v.valve_current v1 w h h' in
      record {
        in_programme = p;
        current = ap (λ z. z.valve_current) d.1;
        whole_minutes = ap (λ z. z.time_valve_remain) d.1;
        driven = d.0;
        same_state = ap (λ z. z.state_valves) d.1;
        same_sectors = ap (λ z. z.valve) d.1;
        same_order = ap (λ z. z.flag_inverted_sequence) d.1;
      }

  pub found_id : (v : Valves) (w : World) → (open_valve b v w).0 ≡ v.valve_current
  unfolding open_valve
  found_id v w = refl

  pub at-Opened : (c : ℕ) (v : Valves) (r : Found b) → Opened b (at c v) r → Opened b v r
  at-Opened c v r o = record {
    in_programme = sym (programmed-at c r.0 v) ∙ o.in_programme;
    current = o.current;
    whole_minutes = o.whole_minutes ∙ ap (λ t. u32 (t * 60)) (time-at c r.0 v);
    driven = o.driven;
    same_state = o.same_state;
    same_sectors = o.same_sectors;
    same_order = o.same_order;
  }
