-- ===== src/Controller/Hex.antt =====
-- The functions of components/helper/convert_char_to_hex.c; $84 reads a word with hexstr_to_int. `pow(16, n)` is exact, so the sum is one of integers; a character that is no hexadecimal
-- digit counts as -1.
use acionna.Prelude.{
  ℕ, ◌+◌, ◌-◌, ◌^◌, ◌<◌, ◌≡◌, arith, ◌&&◌, leb, if◌then◌else◌, List, [], ◌∷◌, ℤ, pos, negsuc, ◌+ℤ◌,
  scale, length, u16, ltb,
}

unfoldable pub hexchar_to_int : ℕ → ℤ
hexchar_to_int c =
    if leb 48 c && leb c 57
    then pos (c - 48)
    else if leb 97 c && leb c 102
    then pos (c - 87)
    else if leb 65 c && leb c 70
    then pos (c - 55)
    else negsuc 0

unfoldable pub hex2int : ℕ → ℤ
hex2int ch =
    if leb 48 ch && leb ch 57
    then pos (ch - 48)
    else if leb 65 ch && leb ch 70
    then pos (ch - 65 + 10)
    else if leb 97 ch && leb ch 102
    then pos (ch - 97 + 10)
    else negsuc 0

-- The two readings of a digit agree on every character.
hex2int-hexchar_to_int : (c : ℕ) → hex2int c ≡ hexchar_to_int c
unfolding hex2int hexchar_to_int
hex2int-hexchar_to_int c = ground arith

-- The loop, from the last character: `length - 1 - i` is the number of characters after.
unfoldable pub hexstr_to_int : List ℕ → ℤ
hexstr_to_int [] = pos 0
hexstr_to_int (c ∷ cs) = hexstr_to_int cs +ℤ scale (16 ^ length cs) (hexchar_to_int c)

-- static_cast<uint16_t>
abbrev pub word16 : ℤ → ℕ
word16 (pos n) = u16 n
word16 (negsuc n) = 65535 - u16 n

-- The characters of the digits 0 to 15.
abbrev pub hex_digit : ℕ → ℕ
hex_digit d = if ltb d 10 then 48 + d else 55 + d

pub hexchar-hex_digit : (d : ℕ) → d < 16 → hexchar_to_int (hex_digit d) ≡ pos d
unfolding hexchar_to_int
hexchar-hex_digit d h = ground arith
