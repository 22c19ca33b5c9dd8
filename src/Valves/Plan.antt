-- ===== src/Valves/Plan.antt =====
-- The sequence as a plan: the sectors still to come, in the order they are to be opened in, without
-- logs, times, delays and outputs.
use acionna.Prelude.{
  ℕ, zero, suc, ◌+◌, ◌-◌, ◌<◌, ◌≤◌, ◌≡◌, refl, ◌∙◌, ap, Bool, true, false, arith, List, [], ◌∷◌,
  some, length, get_or, if◌then◌else◌,
}
use native.Mathlib.Decide.{dec_lt}
use acionna.Types.{StatesFlag, disable, enable, is_enable, is_automatic}
use acionna.Valves.State.{Valves, Sector, empty_sector, get_valve_programmed}
use acionna.Valves.Opened.{Skipped, programmed_of}
use acionna.Valves.Range.{SameRange}

-- Whether sector `id` is in the programme.
abbrev pub is_in : List Sector → ℕ → Bool
is_in l zero = false
is_in l (suc i) = is_enable (get_or l i empty_sector).programmed

-- The programme's sectors after `c`, of the `k` that follow it.
unfoldable pub after : List Sector → ℕ → ℕ → List ℕ
after l zero c = []
after l (suc k) c = let rest = after l k (suc c) in if is_in l (suc c) then suc c ∷ rest else rest

-- The programme's sectors before `c`, downwards.
unfoldable pub before : List Sector → ℕ → List ℕ
before l zero = []
before l (suc c) = let rest = before l c in if is_in l c then c ∷ rest else rest

abbrev pub planned : StatesFlag → List Sector → ℕ → List ℕ
planned disable l c = after l (11 - c) c
planned enable l c = before l c

pub data Plan : Type 0 where
  running : ℕ → List ℕ → Plan
  over : Plan

abbrev pub plan_of : Valves → Plan
plan_of v =
    if is_automatic v.state_valves
    then running v.valve_current (planned v.flag_inverted_sequence v.valve v.valve_current)
    else over

-- A second of the plan: before the sector's time is over it stays, then the next one is opened or
-- the plan ends.
pub data PlanStep : Bool → Plan → Plan → Type 0 where
  stay : (c : ℕ) (l : List ℕ) → PlanStep false (running c l) (running c l)
  open_next : (c d : ℕ) (l : List ℕ) → PlanStep true (running c (d ∷ l)) (running d l)
  end : (c : ℕ) → PlanStep true (running c []) over

pub plan_same : (x y : Valves) → SameRange x y → plan_of y ≡ plan_of x
plan_same x y s = rw (s.same_state, s.same_order, s.same_valve, s.same_current) refl

pub is_in_lem :
    (v : Valves) (j : ℕ) (f : StatesFlag)
    → length v.valve ≡ 11
    → 0 < j
    → j ≤ 11
    → get_valve_programmed j v ≡ some f
    → is_in v.valve j ≡ is_enable f
is_in_lem v zero f l h k e = absurd (omega arith)
is_in_lem v (suc i) f l h k e = ground (arith, programmed_of v i l (omega arith))

abbrev Without : List Sector → ℕ → ℕ → Type 0
Without l low high = (j : ℕ) → low < j → j < high → is_in l j ≡ false

pub Skipped-Without :
    (v : Valves) (low high : ℕ)
    → length v.valve ≡ 11
    → high ≤ 12
    → Skipped v low high
    → Without v.valve low high
Skipped-Without v low high l k s j h h' =
    is_in_lem v j disable l (omega arith) (omega arith) (s j h h')

pub after_to :
    (l : List Sector) (k c d : ℕ)
    → c + k ≡ 11
    → c < d
    → d ≤ 11
    → Without l c d
    → is_in l d ≡ true
    → after l k c ≡ d ∷ after l (11 - d) d
unfolding after
after_to l zero c d e h h' s t = absurd (omega arith)
after_to l (suc k) c d e h h' s t = elim (dec_lt (suc c) d) [
  | Dec.yes y ↦
      rw (s (suc c) (omega arith) y)
        (after_to l k (suc c) d (omega arith) y h' (λ j g g'. s j (omega arith) g') t)
  | Dec.no n ↦
      let q : suc c ≡ d = omega arith in
      let u : k ≡ 11 - d = omega arith in
      let t' : is_in l (suc c) ≡ true = ap (is_in l) q ∙ t in rw (t', q, u) refl
]

pub after_none : (l : List Sector) (k c : ℕ) → c + k ≡ 11 → Without l c 12 → after l k c ≡ []
unfolding after
after_none l zero c e s = refl
after_none l (suc k) c e s =
    rw (s (suc c) (omega arith) (omega arith))
      (after_none l k (suc c) (omega arith) (λ j g g'. s j (omega arith) g'))

pub before_to :
    (l : List Sector) (c d : ℕ)
    → d < c
    → Without l d c
    → is_in l d ≡ true
    → before l c ≡ d ∷ before l d
unfolding before
before_to l zero d h s t = absurd (omega arith)
before_to l (suc c) d h s t = elim (dec_lt d c) [
  | Dec.yes y ↦ rw (s c y (omega arith)) (before_to l c d y (λ j g g'. s j g (omega arith)) t)
  | Dec.no n ↦ let q : c ≡ d = omega arith in rw (q, t) refl
]

pub before_none : (l : List Sector) (c : ℕ) → Without l 0 c → before l c ≡ []
unfolding before
before_none l zero s = refl
before_none l (suc zero) s = refl
before_none l (suc (suc c)) s =
    rw (s (suc c) (omega arith) (omega arith))
      (before_none l (suc c) (λ j g g'. s j g (omega arith)))
