-- ===== src/Controller/CommandLaws.antt =====
-- What the commands do to the outputs and to the time matches.
use acionna.Prelude.{
  ℕ, ◌+◌, ◌-◌, ◌*◌, ◌<◌, ◌≡◌, ap, inl, inr, true, false, Bool-cases, ◌==◌, leb, arith, List, [],
  ◌∷◌, some, get_or, set, u32,
}
use acionna.Types.{StopTypes}
use acionna.Board.{Board, IsLatched}
use acionna.TimeOps.{daytime_to_timesec}
use acionna.Pump.Levels.{stop-AllLow}
use acionna.Pump.Interlock.{Interlocked, PinsSeen}
use acionna.Pump.Interlock.Start.{is_guarded, start-Interlocked}
use acionna.Controller.State.{Acionna, no_match}
use acionna.Controller.Command.{
  is_digit, digits_from, digit_at, two_digits, matches, mode_of, set_time_match, command_50,
  command_3,
}

module _ (b : Board) (l : IsLatched b) where
  open b use {World}

  -- On a board whose outputs keep their level, a motor command other than $32; and $33; keeps the
  -- outputs of K2 and K3 from being both high, if the pump's copies of the pins are right.
  pub command_3-Interlocked :
      (command : List ℕ) (a : Acionna) (w : World)
      → is_guarded (mode_of (digit_at command 2)) ≡ true
      → PinsSeen b a.pump w
      → Interlocked b w
      → Interlocked b (command_3 b command a w).1
  unfolding command_3
  command_3-Interlocked command a w g s o = elim (Bool-cases (matches command ((3, 59) ∷ []))) [
    | inr e ↦ rw e o
    | inl e ↦ rw e (elim (Bool-cases (digit_at command 2 == 0)) [
      | inl z ↦ rw z (inl (stop-AllLow b l StopTypes.command_line_user a.epoch_time a.pump w).1)
      | inr z ↦ rw z (elim (Bool-cases (leb (digit_at command 2) 6)) [
        | inl m ↦
            rw m (start-Interlocked b l (mode_of (digit_at command 2)) a.epoch_time a.pump w g s o)
        | inr m ↦ rw m o
      ])
    ])
  ]

pub digit_lem : (d : ℕ) → d < 10 → is_digit (48 + d) ≡ true
digit_lem d h = ground arith

pub two_digits_lem : (d e : ℕ) → d < 10 → e < 10 → two_digits (48 + d) (48 + e) ≡ 10 * d + e
two_digits_lem d e h k = rw (digit_lem d h, digit_lem e k) (omega arith)

one_digit_lem : (d : ℕ) → d < 10 → digits_from 0 (48 ∷ (48 + d) ∷ []) ≡ d
one_digit_lem d h = rw (digit_lem d h) (omega arith)

-- $50:hN:HHMM;
abbrev pub set_time_command : ℕ → ℕ → ℕ → ℕ → ℕ → List ℕ
set_time_command n h1 h2 m1 m2 =
    36
    ∷ 53
    ∷ 48
    ∷ 58
    ∷ 104
    ∷ (48 + n)
    ∷ 58
    ∷ (48 + h1)
    ∷ (48 + h2)
    ∷ (48 + m1)
    ∷ (48 + m2)
    ∷ 59
    ∷ []

abbrev pub with_time : ℕ → ℕ → Acionna → Acionna
with_time i time a = record a {
  time_match_list =
      set a.time_match_list i (record (get_or a.time_match_list i no_match) { time_match = time });
}

-- The command $50:hN:HHMM; with N from 1 to 9 writes inside the list: it gives entry N the second of
-- the day of HH:MM, and changes nothing else.
pub command_50-time_match :
    (n h1 h2 m1 m2 : ℕ) (a : Acionna)
    → 0 < n
    → n < 10
    → h1 < 10
    → h2 < 10
    → m1 < 10
    → m2 < 10
    → command_50 (set_time_command n h1 h2 m1 m2) a
      ≡ some (with_time (n - 1) (daytime_to_timesec (10 * h1 + h2) (10 * m1 + m2) 0) a)
unfolding command_50 set_time_match daytime_to_timesec
command_50-time_match n h1 h2 m1 m2 a z hn p q r s =
    let e : (n == 0) ≡ false = ground arith in
    let t : (10 * h1 + h2) * 3600 + (10 * m1 + m2) * 60
        ≡ (10 * h1 + h2) * 60 * 60 + (10 * m1 + m2) * 60 + 0 =
      omega arith in
    rw (one_digit_lem n hn, two_digits_lem h1 h2 p q, two_digits_lem m1 m2 r s, e)
      (ap (λ k. some (with_time (n - 1) (u32 k) a)) t)
