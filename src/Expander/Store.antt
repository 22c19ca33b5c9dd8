-- ===== src/Expander/Store.antt =====
-- A concrete I2C module that stores its word.
use acionna.Prelude.{ℕ, refl, true, false, List, [], ◌∷◌, ◌==◌, if◌then◌else◌}
use acionna.Board.{Board}
use acionna.Panel.{thousandth_fpu}
use acionna.Expander.{reg_put}
use acionna.Expander.Laws.{AnswersPut}

-- The world is the two bytes of the word put last.
abbrev store : List ℕ → List ℕ → List ℕ
store (reg ∷ lo ∷ hi ∷ []) w = if reg == reg_put then lo ∷ hi ∷ [] else w
store _ w = w

abbrev pub module_board : Board
module_board = record {
  fpu = thousandth_fpu;
  World = List ℕ;
  load_level = λ i w. false;
  load_write = λ i v w. w;
  input_level = λ i w. false;
  delay_us = λ t w. w;
  transmit = λ addr bytes w. store bytes w;
  receive = λ addr len w. (w, w);
  transmit_receive = λ addr bytes len w. (w, store bytes w);
  probe = λ addr w. (true, w);
}

pub module_board-AnswersPut : AnswersPut module_board
module_board-AnswersPut = record { answer = λ lo hi w. refl }
