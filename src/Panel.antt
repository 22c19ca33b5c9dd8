-- ===== src/Panel.antt =====
-- A concrete board for runs and examples: each contactor follows its output after a microsecond,
-- and the I2C device stores nothing.
use acionna.Prelude.{
  ℕ, zero, suc, ◌+◌, ◌-◌, ◌*◌, ◌/◌, Bool, false, not, [], ◌==◌, if◌then◌else◌, leb, arith, refl, ℤ,
  pos, negsuc, u32,
}
use acionna.Board.{Board, Fpu, IsLatched, IsWired}

pub record Levels : Type 0 where
  pub outputs : ℕ → Bool
  pub contacts : ℕ → Bool
  -- The thermal relay, and whether the contactors are stuck.
  pub relay : Bool
  pub stuck : Bool

abbrev write_output : ℕ → Bool → Levels → Levels
write_output i v w = record w { outputs = λ j. if i == j then v else w.outputs j }

abbrev input : ℕ → Levels → Bool
input i w = if i == 3 then not w.relay else not (w.contacts i)

abbrev settle : Levels → Levels
settle w = if w.stuck then w else record w { contacts = w.outputs }

abbrev power : ℕ → ℕ → ℕ
power a zero = 1000
power a (suc n) = power a n * a / 1000

-- A unit of 10^k thousandths.
abbrev ten_to : ℕ → ℕ
ten_to zero = 1
ten_to (suc k) = 10 * ten_to k

abbrev thousandths : ℤ → ℕ
thousandths (pos n) = n * 1000
thousandths (negsuc n) = 0

-- Numbers in thousandths, with no sign.
-- How many digits a number has.
abbrev int_width : ℕ → ℕ
int_width n = if leb 10 n then if leb 100 n then if leb 1000 n then 4 else 3 else 2 else 1

abbrev pub thousandth_fpu : Fpu
thousandth_fpu = record {
  literal = λ n k. thousandths n / ten_to k;
  float_of = thousandths;
  float_to_double = λ a. a;
  double_to_float = λ a. a;
  width = λ a. int_width (a / 1000) + 2;
  u32_of = λ a. u32 (a / 1000);
  sub = λ a c. a - c;
  mul = λ a c. a * c / 1000;
  div = λ a c. a * 1000 / c;
  add_double = λ a c. a + c;
  mul_double = λ a c. a * c / 1000;
  div_double = λ a c. a * 1000 / c;
  pow = λ a c. power a (c / 1000);
}

abbrev pub panel : Board
panel = record {
  fpu = thousandth_fpu;
  World = Levels;
  load_level = λ i w. w.outputs i;
  load_write = write_output;
  input_level = input;
  delay_us = λ t w. settle w;
  transmit = λ addr bytes w. w;
  receive = λ addr len w. ([], w);
  transmit_receive = λ addr bytes len w. ([], w);
  probe = λ addr w. (false, w);
}

pub panel-IsLatched : IsLatched panel
panel-IsLatched = record {
  reads_back = λ i v w h. ground arith;
  apart = λ i j v w ne. ground arith;
  keeps = λ i t w. ground arith;
}

pub panel-IsWired : IsWired panel
panel-IsWired = record {
  transmit_keeps = λ i addr bytes w. refl;
  receive_keeps = λ i addr len w. refl;
  transmit_receive_keeps = λ i addr bytes len w. refl;
  probe_keeps = λ i addr w. refl;
}

-- All outputs low and all contactors open.
abbrev pub idle : Levels
idle = record { outputs = λ i. false; contacts = λ i. false; relay = false; stuck = false }
