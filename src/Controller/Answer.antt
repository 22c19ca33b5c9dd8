-- ===== src/Controller/Answer.antt =====
-- Acionna::handle_message (main/acionna/acionna.cpp): the lines that $80:v:00; and $80:v:00:u:055; print
-- for each sector into an array of 37 and of 30 characters. The number of a sector has two
-- characters, its state and its flag one each.
use acionna.Prelude.{ℕ, ◌+◌, ◌-◌, ◌/◌, Bool, true, ◌&&◌, ltb, leb, if◌then◌else◌, List, [], ◌∷◌}
use acionna.Board.{Fpu}
use acionna.Valves.State.{Sector}

-- The digits after the first: one for each of these powers of ten that the number reaches.
abbrev digits_above : List ℕ → ℕ → ℕ
digits_above [] n = 0
digits_above (p ∷ ps) n = (if leb p n then 1 else 0) + digits_above ps n

-- %lu
unfoldable pub word_width : ℕ → ℕ
word_width n =
    1
    + digits_above
        (10 ∷ 100 ∷ 1000 ∷ 10000 ∷ 100000 ∷ 1000000 ∷ 10000000 ∷ 100000000 ∷ 1000000000 ∷ []) n

-- %d of an `int` by its 32 bits.
unfoldable pub int_width : ℕ → ℕ
int_width n = if ltb n 2147483648 then word_width n else 1 + word_width (4294967296 - n)

abbrev every : (Sector → Bool) → List Sector → Bool
every test [] = true
every test (s ∷ ss) = test s && every test ss

-- "v[%02d]:%d pg:%d t:%lu mm:%.1f p:%d\n" and its end.
unfoldable pub rain_line : Fpu → Sector → ℕ
rain_line f s =
    24 + word_width (s.time_elapsed_cfg / 60) + f.width s.rain_mm + int_width s.pressure_exp

-- "v[%02d]:%d pg:%d t:%lu r:%.1f V:%.1f p:%d\n" and its end.
unfoldable pub list_line : Fpu → Sector → ℕ
list_line f s =
    26
    + word_width (s.time_elapsed_cfg / 60)
    + f.width s.rain_mm
    + f.width s.volume
    + int_width s.pressure_exp

unfoldable pub rain_fits : Fpu → List Sector → Bool
rain_fits f = every (λ (s : Sector). leb (rain_line f s) 30)

unfoldable pub list_fits : Fpu → List Sector → Bool
list_fits f = every (λ (s : Sector). leb (list_line f s) 37)
