-- ===== src/Expander/Tests.antt =====
-- The expander's theorems on a module that stores its word.
use acionna.Prelude.{ℕ, ◌≡◌, arith, List, []}
use acionna.Expander.{new, write, read}
use acionna.Expander.Store.{module_board, module_board-AnswersPut}
use acionna.Expander.Laws.{read-write}

abbrev no_bytes : List ℕ
no_bytes = []

read-write_example :
    let (y, w') = write module_board 11 1 new no_bytes in (read module_board 11 y w').0 ≡ 1
read-write_example =
    read-write module_board module_board-AnswersPut 11 1 new no_bytes (omega arith) (omega arith)
