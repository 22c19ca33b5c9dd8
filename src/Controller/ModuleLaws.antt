-- ===== src/Controller/ModuleLaws.antt =====
-- The word of $84 in the module.
use acionna.Prelude.{
  ℕ, ◌+◌, ◌*◌, ◌<◌, ◌≡◌, refl, ◌∙◌, ap, arith, List, ◌+ℤ◌, scale, ◌^◌, length, u16, [], ◌∷◌, pos,
}
use acionna.Board.{Board}
use acionna.Expander.Laws.{AnswersPut, get-put}
use acionna.Valves.State.{Valves}
use acionna.Controller.Hex.{hexstr_to_int, hex_digit, hexchar-hex_digit}
use acionna.Controller.Sectors.{module_put}
use acionna.Controller.Module.{command_84, command_85}

-- The value of four hexadecimal digits.
abbrev pub word_of_digits : ℕ → ℕ → ℕ → ℕ → ℕ
word_of_digits d3 d2 d1 d0 = 4096 * d3 + 256 * d2 + 16 * d1 + d0

add_digit : (value k d : ℕ) → pos value +ℤ scale k (pos d) ≡ pos (value + k * d)
add_digit value k d = ground arith

hexstr-cons :
    (d value : ℕ) (cs : List ℕ)
    → d < 16
    → hexstr_to_int cs ≡ pos value
    → hexstr_to_int (hex_digit d ∷ cs) ≡ pos (value + 16 ^ length cs * d)
unfolding hexstr_to_int
hexstr-cons d value cs h e = rw (hexchar-hex_digit d h, e) (add_digit value (16 ^ length cs) d)

four_digits :
    (d3 d2 d1 d0 : ℕ)
    → d3 < 16
    → d2 < 16
    → d1 < 16
    → d0 < 16
    → hexstr_to_int (hex_digit d3 ∷ hex_digit d2 ∷ hex_digit d1 ∷ hex_digit d0 ∷ [])
      ≡ pos (word_of_digits d3 d2 d1 d0)
unfolding hexstr_to_int
four_digits d3 d2 d1 d0 h3 h2 h1 h0 =
    let e0 = hexstr-cons d0 0 [] h0 refl in
    let e1 = hexstr-cons d1 (0 + 16 ^ 0 * d0) (hex_digit d0 ∷ []) h1 e0 in
    let e2 =
      hexstr-cons d2 (0 + 16 ^ 0 * d0 + 16 ^ 1 * d1) (hex_digit d1 ∷ hex_digit d0 ∷ []) h2 e1 in
    let e3 =
      hexstr-cons d3 (0 + 16 ^ 0 * d0 + 16 ^ 1 * d1 + 16 ^ 2 * d2)
        (hex_digit d2 ∷ hex_digit d1 ∷ hex_digit d0 ∷ []) h3 e2 in
    e3 ∙ ap pos (omega arith)

-- $84:XXXX; and $85;
abbrev pub put_command : ℕ → ℕ → ℕ → ℕ → List ℕ
put_command d3 d2 d1 d0 =
    36 ∷ 56 ∷ 52 ∷ 58 ∷ hex_digit d3 ∷ hex_digit d2 ∷ hex_digit d1 ∷ hex_digit d0 ∷ 59 ∷ []

abbrev pub get_command : List ℕ
get_command = 36 ∷ 56 ∷ 53 ∷ 59 ∷ []

-- With a module that answers GET with the word put last, the command $84:XXXX; with four
-- hexadecimal digits and then $85; leave the digits' value in the copy of the module's outputs.
pub command_85-command_84 :
    (b : Board)
    → AnswersPut b
    → (d3 d2 d1 d0 : ℕ) (v : Valves) (w : b.World) → d3 < 16
    → d2 < 16
    → d1 < 16
    → d0 < 16
    → let r = command_84 b (put_command d3 d2 d1 d0) v w in
      (command_85 b get_command r.0 r.1).0.load.output ≡ word_of_digits d3 d2 d1 d0
unfolding command_84 command_85 module_put
command_85-command_84 b a d3 d2 d1 d0 v w h3 h2 h1 h0 =
    let word = word_of_digits d3 d2 d1 d0 in
    let fits : word < 65536 = omega arith in
    let small : u16 word ≡ word = omega arith in
    rw (four_digits d3 d2 d1 d0 h3 h2 h1 h0) (rw small (get-put b a word v.load w fits))
