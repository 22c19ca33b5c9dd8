-- ===== src/MyString.antt =====
-- Class My_String (components/helper/my_string.cpp): the two methods that copy a part of a text up to a
-- delimiter. A text is the list of its `len` characters, a delimiter the list of its characters
-- without the final 0, and a buffer holds what was copied before its 0. The allocations are not
-- modelled.
pub mod Laws
mod Tests
use acionna.Prelude.{
  ℕ, zero, suc, ◌+◌, Bool, true, false, ◌||◌, ◌&&◌, ◌==◌, ltb, if◌then◌else◌, List, [], ◌∷◌, Option,
  none, some, length,
}

-- The value returned: the place where the copy ended, or -1. Out of bounds, a character after the last
-- one has been read.
pub data Part : Type 0 where
  found : ℕ → List ℕ → Part
  failed out_of_bounds : Part

-- while(delimiter[s])
abbrev pub is_delimiter : ℕ → List ℕ → Bool
is_delimiter c [] = false
is_delimiter c (d ∷ ds) = (c == d) || is_delimiter c ds

abbrev pub copied : ℕ → Part → Part
copied c (found i buffer) = found i (c ∷ buffer)
copied c failed = failed
copied c out_of_bounds = out_of_bounds

abbrev pub drop : ℕ → List ℕ → List ℕ
drop zero cs = cs
drop (suc n) [] = []
drop (suc n) (c ∷ cs) = drop n cs

-- The loop of `substring` from the place i on.
unfoldable pub cut : List ℕ → List ℕ → ℕ → Part
cut delimiter [] i = found i []
cut delimiter (c ∷ cs) i =
    let rest = cut delimiter cs (i + 1) in
    if is_delimiter c delimiter then found i [] else copied c rest

unfoldable pub substring : List ℕ → List ℕ → ℕ → Part
substring text delimiter pos =
    if ltb pos (length text) then cut delimiter (drop pos text) pos else failed

abbrev pub is_quote : ℕ → Bool
is_quote c = (c == 39) || (c == 34)

-- The loop of `substring_console`, outside quotation marks or after an opening one. The inner loop
-- looks at the next character before it looks at the length.
unfoldable pub cut_console : List ℕ → Option ℕ → List ℕ → ℕ → Part
cut_console delimiter none [] i = found i []
cut_console delimiter none (c ∷ cs) i =
    let quoted = cut_console delimiter (some c) cs (i + 1) in
    let rest = cut_console delimiter none cs (i + 1) in
    if is_quote c
    then copied c quoted
    else if is_delimiter c delimiter
    then found i []
    else copied c rest
cut_console delimiter (some quot) [] i = out_of_bounds
cut_console delimiter (some quot) (c ∷ cs) i =
    let quoted = cut_console delimiter (some quot) cs (i + 1) in
    let rest = cut_console delimiter none cs (i + 1) in
    if c == quot
    then (if is_delimiter c delimiter then found i [] else copied c rest)
    else copied c quoted

unfoldable pub substring_console : List ℕ → List ℕ → ℕ → Part
substring_console text delimiter pos =
    if ltb pos (length text) then cut_console delimiter none (drop pos text) pos else failed

-- strncmp(a, b, len) == 0
abbrev pub strncmp_equal : List ℕ → List ℕ → Bool
strncmp_equal [] _ = true
strncmp_equal _ [] = true
strncmp_equal (a ∷ xs) (b ∷ ys) = (a == b) && ((a == 0) || strncmp_equal xs ys)

-- operator==
unfoldable pub equals : List ℕ → List ℕ → Bool
equals xs ys = (length xs == length ys) && strncmp_equal xs ys
