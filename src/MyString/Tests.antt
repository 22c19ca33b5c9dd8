-- ===== src/MyString/Tests.antt =====
-- The two methods on short texts; the delimiters are a blank and a comma.
use acionna.Prelude.{ℕ, ◌+◌, ◌≡◌, refl, List, [], ◌∷◌, ◌++◌}
use acionna.MyString.{found, substring_console}
use acionna.MyString.Laws.{substring_console-quoted}

abbrev delimiters : List ℕ
delimiters = 32 ∷ 44 ∷ []

-- "x 'a b',c"
substring_console-quoted_example :
    substring_console
      ((120 ∷ 32 ∷ []) ++ (39 ∷ (97 ∷ 32 ∷ 98 ∷ []) ++ (39 ∷ 44 ∷ 99 ∷ [])))
      delimiters
      2
    ≡ found (2 + 3 + 2) (39 ∷ (97 ∷ 32 ∷ 98 ∷ []) ++ (39 ∷ []))
substring_console-quoted_example =
    substring_console-quoted (120 ∷ 32 ∷ []) 39 (97 ∷ 32 ∷ 98 ∷ []) (44 ∷ 99 ∷ []) delimiters refl
      (refl, (refl, (refl, tt))) (refl, (refl, tt)) refl
