-- ===== src/Valves/Range.antt =====
-- Where Valves::start, stop and find_next leave `valve_current`.
use acionna.Prelude.{
  ℕ, ◌-◌, ◌<◌, ◌≤◌, ◌≡◌, refl, sym, ap, ◌∙◌, inl, inr, ◌⊎◌, ◌≢◌, arith, some, if◌then◌else◌, length,
  ℤ, true,
}
use mathlib.Core.Path.{subst}
use acionna.Types.{StatesFlag, disable, enable, is_enable, is_automatic, StatesValves}
use acionna.Board.{Board}
use acionna.Valves.State.{Valves, set_valve_state}
use acionna.Valves.Log.{make_log, make_log_update, pressure_avg}
use acionna.Valves.Sequence.{start, stop, find_next, Found, close_last, delayed_close}
use acionna.Valves.Opened.{Opened, Ended, flag_cases}
use acionna.Valves.FindInverted.{find_next-Direct, find_next-Inverted, seeking}

-- Where `valve_current` may stand while the sequence runs.
abbrev pub InOrder : StatesFlag → ℕ → Type 0
InOrder disable c = c ≤ 11
InOrder enable c = (0 < c) × (c ≤ 12)

-- How many sectors may still come.
abbrev pub left : StatesFlag → ℕ → ℕ
left disable c = 11 - c
left enable c = c

pub record InRange (v : Valves) : Type 0 where
  pub eleven : length v.valve ≡ 11
  pub in_order :
      v.state_valves ≡ StatesValves.automatic_switch
      → InOrder v.flag_inverted_sequence v.valve_current

-- The members that the search reads are the same.
pub record SameRange (v v' : Valves) : Type 0 where
  pub same_valve : v'.valve ≡ v.valve
  pub same_order : v'.flag_inverted_sequence ≡ v.flag_inverted_sequence
  pub same_state : v'.state_valves ≡ v.state_valves
  pub same_current : v'.valve_current ≡ v.valve_current

pub transfer : (v v' : Valves) → SameRange v v' → InRange v → InRange v'
transfer v v' s i = record {
  eleven = ap (λ l. length l) s.same_valve ∙ i.eleven;
  in_order = λ a.
      subst (λ f. InOrder f v'.valve_current) (sym s.same_order)
        (subst (λ c. InOrder v.flag_inverted_sequence c) (sym s.same_current)
          (i.in_order (sym s.same_state ∙ a)));
}

pub log-SameRange : (now : ℕ) (p : ℤ) (v : Valves) → SameRange v (make_log now p v)
unfolding make_log pressure_avg
log-SameRange now p v = record {
  same_valve = refl;
  same_order = refl;
  same_state = refl;
  same_current = refl;
}

pub update_log-SameRange : (p : ℤ) (v : Valves) → SameRange v (make_log_update p v)
unfolding make_log_update pressure_avg
update_log-SameRange p v = record {
  same_valve = refl;
  same_order = refl;
  same_state = refl;
  same_current = refl;
}

start_order : (f : StatesFlag) → InOrder f (if is_enable f then 12 else 0)
start_order disable = omega arith
start_order enable = (omega arith, omega arith)

apart : StatesValves.system_off ≡ StatesValves.automatic_switch → ⊥
apart e = ground arith

pub automatic_of : (s : StatesValves) → is_automatic s ≡ true → s ≡ StatesValves.automatic_switch
automatic_of s e = ground arith

-- Away from the end of the sequence: the sequence is over, or nearer to its end.
abbrev pub Nearer : Valves → Valves → Type 0
Nearer v r =
    (r.state_valves ≡ StatesValves.system_off)
    ⊎ ((r.state_valves ≡ v.state_valves)
        × (r.flag_inverted_sequence ≡ v.flag_inverted_sequence)
        × (left v.flag_inverted_sequence r.valve_current
            < left v.flag_inverted_sequence v.valve_current))

pub near_same : (v x y : Valves) → SameRange x y → Nearer v x → Nearer v y
near_same v x y s (inl e) = inl (s.same_state ∙ e)
near_same v x y s (inr (e, o, n)) = inr (
  s.same_state ∙ e,
  s.same_order ∙ o,
  subst (λ c. left v.flag_inverted_sequence c < left v.flag_inverted_sequence v.valve_current)
      (sym s.same_current) n,
)

pub from_same : (v x : Valves) → SameRange v x → (r : Valves) → Nearer x r → Nearer v r
from_same v x s r (inl e) = inl e
from_same v x s r (inr (e, o, n)) = inr (
  e ∙ s.same_state,
  o ∙ s.same_order,
  subst (λ f. left f r.valve_current < left f v.valve_current) s.same_order
      (subst (λ c. left x.flag_inverted_sequence r.valve_current < left x.flag_inverted_sequence c)
        s.same_current n),
)

module _ (b : Board) where
  open b use {World}

  set-SameRange :
      (id level : ℕ) (v : Valves) (w : World) → SameRange v (set_valve_state b id level v w).0
  unfolding set_valve_state
  set-SameRange id level v w = record {
    same_valve = ground arith;
    same_order = ground arith;
    same_state = ground arith;
    same_current = ground arith;
  }

  pub set_valve_state-InRange :
      (id level : ℕ) (v : Valves) (w : World)
      → InRange v
      → InRange (set_valve_state b id level v w).0
  set_valve_state-InRange id level v w i =
      transfer v (set_valve_state b id level v w).0 (set-SameRange id level v w) i

  pub close-SameRange : (v : Valves) (w : World) → SameRange v (delayed_close b v w).0
  unfolding delayed_close set_valve_state
  close-SameRange v w = record {
    same_valve = ground arith;
    same_order = ground arith;
    same_state = ground arith;
    same_current = ground arith;
  }

  pub last-SameRange : (v : Valves) (w : World) → SameRange v (close_last b v w).0
  unfolding close_last set_valve_state
  last-SameRange v w = record {
    same_valve = ground arith;
    same_order = ground arith;
    same_state = ground arith;
    same_current = ground arith;
  }

  pub stop-InRange :
      (p : ℤ) (v : Valves) (w : World) → length v.valve ≡ 11 → InRange (stop b p v w).0
  unfolding stop make_log_update pressure_avg
  stop-InRange p v w l = record { eleven = ground arith; in_order = λ a. ground arith }

  -- With the eleven sectors, `start` puts `valve_current` where the update can go on from, in both
  -- orders and wherever it stood before.
  pub start-InRange : (v : Valves) (w : World) → length v.valve ≡ 11 → InRange (start b v w).0
  unfolding start
  start-InRange v w l = record { eleven = l; in_order = λ a. start_order v.flag_inverted_sequence }

  Ended-InRange : (v : Valves) (r : Found b) → length v.valve ≡ 11 → Ended b v r → InRange r.1.0
  Ended-InRange v r l o = record {
    eleven = ap (λ l. length l) o.same_sectors ∙ l;
    in_order = λ a. absurd (apart (sym o.switched_off ∙ a));
  }

  Opened-InRange :
      (v : Valves) (r : Found b)
      → length v.valve ≡ 11
      → Opened b v r
      → InOrder v.flag_inverted_sequence r.0
      → InRange r.1.0
  Opened-InRange v r l o h = record {
    eleven = ap (λ l. length l) o.same_sectors ∙ l;
    in_order = λ a.
        subst (λ f. InOrder f r.1.0.valve_current) (sym o.same_order)
          (subst (λ c. InOrder v.flag_inverted_sequence c) (sym o.current) h);
  }

  -- What the search leaves: the end of the sequence, or a sector that is nearer to it.
  abbrev pub FoundIn : Valves → Found b → Type 0
  FoundIn v r =
      InRange r.1.0
      × (((r.0 ≡ 0) × (r.1.0.state_valves ≡ StatesValves.system_off))
          ⊎ ((r.0 ≢ 0) × Nearer v r.1.0))

  opened :
      (v : Valves) (r : Found b)
      → length v.valve ≡ 11
      → Opened b (seeking v) r
      → InOrder v.flag_inverted_sequence r.0
      → 0 < r.0
      → left v.flag_inverted_sequence r.0 < left v.flag_inverted_sequence v.valve_current
      → FoundIn v r
  opened v r l o h z n = (
    Opened-InRange (seeking v) r l o h,
    inr (
      λ e. omega arith,
      inr (
        o.same_state,
        o.same_order,
        subst (λ c. left v.flag_inverted_sequence c < left v.flag_inverted_sequence v.valve_current)
            (sym o.current) n,
      ),
    ),
  )

  pub found :
      (v : Valves) (w : World)
      → InRange v
      → v.state_valves ≡ StatesValves.automatic_switch
      → (r : Found b) × (find_next b v w ≡ some r) × FoundIn v r
  found v w i a = elim (flag_cases v.flag_inverted_sequence) [
    | inl e ↦
        let h = subst (λ f. InOrder f v.valve_current) e (i.in_order a) in
        let (r, q, d) = find_next-Inverted b v w i.eleven h.0 h.1 e in
        (
          r,
          q,
          elim d [
            | inl o ↦
                (Ended-InRange (seeking v) r i.eleven o.0, inl (o.0.none_found, o.0.switched_off))
            | inr (o, l, u, t) ↦
                opened v r i.eleven o (subst (λ f. InOrder f r.0) (sym e) (l, omega arith)) l
                  (subst (λ f. left f r.0 < left f v.valve_current) (sym e) u)
          ],
        )
    | inr e ↦
        let h = subst (λ f. InOrder f v.valve_current) e (i.in_order a) in
        let (r, q, d) = find_next-Direct b v w i.eleven h e in
        (
          r,
          q,
          elim d [
            | inl o ↦
                (Ended-InRange (seeking v) r i.eleven o.0, inl (o.0.none_found, o.0.switched_off))
            | inr (o, l, u, t) ↦
                opened v r i.eleven o (subst (λ f. InOrder f r.0) (sym e) u) (omega arith)
                  (subst (λ f. left f r.0 < left f v.valve_current) (sym e) (omega arith))
          ],
        )
  ]
