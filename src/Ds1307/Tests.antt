-- ===== src/Ds1307/Tests.antt =====
-- A concrete module with the seconds' register alone.
use acionna.Prelude.{ℕ, ◌%◌, ◌≡◌, refl, true, false, arith, List, [], ◌∷◌}
use acionna.Board.{Board}
use acionna.Panel.{thousandth_fpu}
use acionna.Ds1307.{enable}
use acionna.Ds1307.Laws.{KeepsSeconds}

abbrev store : List ℕ → ℕ → ℕ
store (reg ∷ v ∷ []) w = v
store _ w = w

abbrev seconds_board : Board
seconds_board = record {
  fpu = thousandth_fpu;
  World = ℕ;
  load_level = λ i w. false;
  load_write = λ i v w. w;
  input_level = λ i w. false;
  delay_us = λ t w. w;
  transmit = λ addr bytes w. store bytes w;
  receive = λ addr len w. (w % 256 ∷ [], w);
  transmit_receive = λ addr bytes len w. (w % 256 ∷ [], w);
  probe = λ addr w. (true, w);
}

-- The hypotheses on the register hold here.
seconds_board-KeepsSeconds : KeepsSeconds seconds_board
seconds_board-KeepsSeconds = record {
  seconds = λ w. w % 256;
  in_byte = λ w. omega arith;
  shown = λ w. refl;
  read_keeps = λ w. refl;
  written = λ v w h. omega arith;
}

-- A clock stopped at 55 seconds runs on from there.
stopped_started : enable seconds_board 1 0xd5 ≡ 0x55
unfolding enable
stopped_started = refl
