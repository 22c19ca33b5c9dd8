-- ===== src/Valves/Wires.antt =====
-- What the valves do leaves the levels of the pump's outputs alone: it goes over the I2C lines.
use acionna.Prelude.{
  ℕ, zero, suc, ◌+◌, ◌≡◌, refl, ◌∙◌, Bool, true, false, not, ◌&&◌, Option, none, some, ◌==◌, ltb,
  leb, if◌then◌else◌, ℤ, u8, dec8,
}
use acionna.Types.{disable, enable, StatesFlag, is_enable, is_automatic}
use acionna.Board.{Board, IsLatched, IsWired}
use acionna.Expander
use acionna.Expander.{Expander}
use acionna.Valves.State.{Valves, n_valves, get_valve_programmed, set_valve_state}
use acionna.Valves.Sequence.{
  ◌>>=◌, start, stop, open_valve, Found, find_direct, find_inverted, find_next, close_last,
  after_search, switch_sector, delayed_close, count_second, update,
}

-- A property of the value, if there is one.
abbrev pub All {ℓ} : {A : Type ℓ} → (A → Type 0) → Option A → Type 0
All P none = Unit
All P (some a) = P a

pub All-bind :
    {A B : Type 0} (P : A → Type 0) (Q : B → Type 0) (m : Option A) (f : A → Option B)
    → All P m
    → ((a : A) → P a → All Q (f a))
    → All Q (m >>= f)
All-bind P Q none f h k = tt
All-bind P Q (some a) f h k = k a h

pub one_of :
    {A : Type 0} (P : A → Type 0) (t : Bool) (m n : Option A)
    → All P m
    → All P n
    → All P (if t then m else n)
one_of P true m n h k = h
one_of P false m n h k = k

-- Every output has the same level.
abbrev pub SameLevels : (b : Board) → b.World → b.World → Type 0
SameLevels b w w' = (i : ℕ) → b.load_level i w' ≡ b.load_level i w

module _ (b : Board) where
  open b use {World}

  pub same_levels : (w : World) → SameLevels b w w
  same_levels w i = refl

  pub chain : (w1 w2 w3 : World) → SameLevels b w1 w2 → SameLevels b w2 w3 → SameLevels b w1 w3
  chain w1 w2 w3 h k i = k i ∙ h i

  pub either_way :
      {A : Type 0} (w : World) (t : Bool) (r s : A × World)
      → SameLevels b w r.1
      → SameLevels b w s.1
      → SameLevels b w (if t then r else s).1
  either_way w true r s h k = h
  either_way w false r s h k = k

module _ (b : Board) (l : IsLatched b) (c : IsWired b) where
  open b use {World}

  pub put-SameLevels :
      (word : ℕ) (x : Expander) (w : World) → SameLevels b w (Expander.put b word x w).1
  unfolding Expander.put
  put-SameLevels word x w i = c.transmit_keeps i _ _ w

  pub write-SameLevels :
      (pin level : ℕ) (x : Expander) (w : World) → SameLevels b w (Expander.write b pin level x w).1
  unfolding Expander.write
  write-SameLevels pin level x w = put-SameLevels _ x w

  pub ask-SameLevels : (reg len : ℕ) (w : World) → SameLevels b w (Expander.ask b reg len w).1
  ask-SameLevels reg len w i =
      c.receive_keeps i _ len _ ∙ l.keeps i 10000 _ ∙ c.transmit_keeps i _ _ w

  pub set_valve_state-SameLevels :
      (id level : ℕ) (v : Valves) (w : World) → SameLevels b w (set_valve_state b id level v w).1
  unfolding set_valve_state
  set_valve_state-SameLevels id level v w =
      either_way b w (not (id == 0) && leb id n_valves) _ _ (write-SameLevels id level v.load w)
        (same_levels b w)

  pub start-SameLevels : (v : Valves) (w : World) → SameLevels b w (start b v w).1
  unfolding start
  start-SameLevels v w = put-SameLevels 0 v.load w

  pub stop-SameLevels : (p : ℤ) (v : Valves) (w : World) → SameLevels b w (stop b p v w).1
  unfolding stop
  stop-SameLevels p v w = put-SameLevels 0 v.load w

  abbrev FoundSame : World → Found b → Type 0
  FoundSame w r = SameLevels b w r.1.1

  open_valve-SameLevels : (v : Valves) (w : World) → FoundSame w (open_valve b v w)
  unfolding open_valve
  open_valve-SameLevels v w = set_valve_state-SameLevels v.valve_current 1 _ w

  -- The branches of the loops of `find_next`.
  found_or :
      (v : Valves) (w : World) (flag : StatesFlag) (rest : Option (Found b))
      → All (FoundSame w) rest
      → All (FoundSame w) (if is_enable flag then some (open_valve b v w) else rest)
  found_or v w enable rest h = open_valve-SameLevels v w
  found_or v w disable rest h = h

  read_or :
      (v : Valves) (w : World) (m : Option StatesFlag) (rest : Option (Found b))
      → All (FoundSame w) rest
      → All (FoundSame w) (m >>= λ flag. if is_enable flag then some (open_valve b v w) else rest)
  read_or v w none rest h = tt
  read_or v w (some flag) rest h = found_or v w flag rest h

  direct-SameLevels :
      (fuel : ℕ) (v : Valves) (w : World) → All (FoundSame w) (find_direct b fuel v w)
  unfolding find_direct
  direct-SameLevels zero v w = tt
  direct-SameLevels (suc fuel) v w =
      let v1 = record v { valve_current = u8 (v.valve_current + 1) } in
      one_of (FoundSame w) (ltb v1.valve_current (n_valves + 1)) _ _
        (read_or v1 w (get_valve_programmed v1.valve_current v1) _ (direct-SameLevels fuel v1 w))
        (same_levels b w)

  inverted-SameLevels :
      (fuel : ℕ) (v : Valves) (w : World) → All (FoundSame w) (find_inverted b fuel v w)
  unfolding find_inverted
  inverted-SameLevels zero v w = tt
  inverted-SameLevels (suc fuel) v w =
      let v1 = record v { valve_current = dec8 v.valve_current } in
      one_of (FoundSame w) (v1.valve_current == 0) _ _ (same_levels b w)
        (read_or v1 w (get_valve_programmed v1.valve_current v1) _ (inverted-SameLevels fuel v1 w))

  find_next-SameLevels : (v : Valves) (w : World) → All (FoundSame w) (find_next b v w)
  unfolding find_next
  find_next-SameLevels v w =
      let v1 = record v { flag_valve_found = disable } in
      one_of (FoundSame w) (is_enable v.flag_inverted_sequence) _ _ (inverted-SameLevels 256 v1 w)
        (direct-SameLevels 256 v1 w)

  close_last-SameLevels : (v : Valves) (w : World) → SameLevels b w (close_last b v w).1
  unfolding close_last
  close_last-SameLevels v w =
      either_way b w (is_enable v.flag_valve_delay_switch) _ _ (same_levels b w)
        (set_valve_state-SameLevels _ 0 _ w)

  after-SameLevels : (now : ℕ) (p : ℤ) (r : Found b) → SameLevels b r.1.1 (after_search b now p r).1
  unfolding after_search
  after-SameLevels now p r =
      either_way b r.1.1 (r.0 == 0) _ _ (stop-SameLevels p r.1.0 r.1.1) (same_levels b r.1.1)

  abbrev pub ValvesSame : World → Valves × World → Type 0
  ValvesSame w r = SameLevels b w r.1

  switch-SameLevels :
      (now : ℕ) (p : ℤ) (v : Valves) (w : World) → All (ValvesSame w) (switch_sector b now p v w)
  unfolding switch_sector
  switch-SameLevels now p v w =
      let (v1, w1) = close_last b v w in
      All-bind (FoundSame w1) (ValvesSame w) (find_next b v1 w1)
        (λ r. some (after_search b now p r)) (find_next-SameLevels v1 w1)
        (λ r h.
          chain b w w1 _ (close_last-SameLevels v w)
            (chain b w1 r.1.1 _ h (after-SameLevels now p r)))

  delayed-SameLevels : (v : Valves) (w : World) → SameLevels b w (delayed_close b v w).1
  unfolding delayed_close
  delayed-SameLevels v w =
      either_way b w (is_enable v.flag_delay_close) _ _
        (either_way b w (ltb 0 v.time_delay_close) _ _ (same_levels b w)
          (set_valve_state-SameLevels _ 0 _ w))
        (same_levels b w)

  -- The one-second update of the valves.
  pub update-SameLevels :
      (now : ℕ) (p : ℤ) (v : Valves) (w : World) → All (ValvesSame w) (update b now p v w)
  unfolding update
  update-SameLevels now p v w =
      one_of (ValvesSame w) (is_automatic v.state_valves) _ _
        (All-bind (ValvesSame w) (ValvesSame w) _
          (λ r. some (count_second b p (delayed_close b (r.0) (r.1))))
          (one_of (ValvesSame w) (v.time_valve_remain == 0) _ _ (switch-SameLevels now p v w)
            (same_levels b w))
          (λ r h. chain b w (r.1) _ h (delayed-SameLevels (r.0) (r.1))))
        (same_levels b w)
