-- ===== src/Controller/Frames.antt =====
-- Acionna::parser_ (main/acionna/acionna.cpp): the command frame in a message.
use mathlib.Core.List.{append_assoc}
use acionna.Prelude.{
  ℕ, suc, ◌+◌, ◌≡◌, ◌≢◌, refl, ap, ap₂, ◌∙◌, arith, Bool, false, ltb, leb, length, Bool-cases, inl,
  inr, Option, none, some, List, [], ◌∷◌, ◌++◌, ◌==◌, if◌then◌else◌,
}

abbrev pub dollar : ℕ
dollar = 36

abbrev pub semicolon : ℕ
semicolon = 59

-- What the loop over the payload makes of the 20 bytes of `command_str`: a frame, whose length the
-- `;` gave; no `;` after a `$`, and so the length 0; or a write past the last byte, after which
-- nothing is known.
pub data Parsed : Type 0 where
  frame : List ℕ → Parsed
  unfinished overrun : Parsed

-- new uint8_t[20], and the size of `command_str_`.
abbrev pub command_size : ℕ
command_size = 20

-- `written` holds what was written since the last `$`, from index 0 on, and `none` before the first.
unfoldable pub parser : List ℕ → Option (List ℕ) → Parsed
parser [] written = unfinished
parser (c ∷ cs) written =
    let rest = λ (bytes : List ℕ).
      if ltb (length bytes) command_size
      then if c == semicolon
        then frame (bytes ++ (c ∷ []))
        else parser cs (some (bytes ++ (c ∷ [])))
      else overrun in
    if c == dollar
    then parser cs (some (dollar ∷ []))
    else elim written [ none ↦ parser cs none | some bytes ↦ rest bytes ]

-- A frame's body has neither mark.
abbrev pub Plain : List ℕ → Type 0
Plain [] = Unit
Plain (c ∷ cs) = (c ≢ dollar) × (c ≢ semicolon) × Plain cs

abbrev pub NoDollar : List ℕ → Type 0
NoDollar [] = Unit
NoDollar (c ∷ cs) = (c ≢ dollar) × NoDollar cs

not_equal : (a b : ℕ) → a ≢ b → (a == b) ≡ false
not_equal a b h = ground arith

pub length-snoc : (xs : List ℕ) (c : ℕ) → length (xs ++ (c ∷ [])) ≡ suc (length xs)
length-snoc [] c = refl
length-snoc (x ∷ xs) c = ap suc (length-snoc xs c)

-- The frame of a body that comes after some bytes, if it has room.
abbrev framed : List ℕ → List ℕ → Parsed
framed bytes cs =
    if ltb (length bytes + length cs) command_size
    then frame (bytes ++ (cs ++ (semicolon ∷ [])))
    else overrun

framed-snoc :
    (bytes : List ℕ) (c : ℕ) (cs : List ℕ) → framed (bytes ++ (c ∷ [])) cs ≡ framed bytes (c ∷ cs)
framed-snoc bytes c cs =
    ap₂ (λ (n : ℕ) (l : List ℕ). if ltb n command_size then frame l else overrun)
      (omega (arith, length-snoc bytes c)) (append_assoc bytes (c ∷ []) (cs ++ (semicolon ∷ [])))

body :
    (cs rest bytes : List ℕ)
    → Plain cs
    → parser (cs ++ (semicolon ∷ rest)) (some bytes) ≡ framed bytes cs
unfolding parser
body [] rest bytes p =
    ap (λ (n : ℕ). if ltb n command_size then frame (bytes ++ (semicolon ∷ [])) else overrun)
      (omega arith)
body (c ∷ cs) rest bytes p = elim (Bool-cases (ltb (length bytes) command_size)) [
  | inl e ↦
      rw (not_equal c dollar p.0, not_equal c semicolon p.1, e)
        (body cs rest (bytes ++ (c ∷ [])) p.2 ∙ framed-snoc bytes c cs)
  | inr e ↦
      let full : ltb (length bytes + length (c ∷ cs)) command_size ≡ false = ground arith in
      rw (not_equal c dollar p.0, not_equal c semicolon p.1, e, full) refl
]

-- Noise without a `$`, then `$`, a body without `$` and `;`, and `;`: where all of the frame has at
-- most 20 bytes the parser finds it as it was sent, whatever follows, and where it has more the parser
-- writes past its array.
pub parser-frame :
    (noise cs rest : List ℕ)
    → NoDollar noise
    → Plain cs
    → parser (noise ++ (dollar ∷ (cs ++ (semicolon ∷ rest)))) none
      ≡ (if leb (2 + length cs) 20 then frame (dollar ∷ (cs ++ (semicolon ∷ []))) else overrun)
unfolding parser
parser-frame [] cs rest h p =
    body cs rest (dollar ∷ []) p
    ∙ ap (λ (t : Bool). if t then frame (dollar ∷ (cs ++ (semicolon ∷ []))) else overrun)
        (ground arith)
parser-frame (c ∷ noise) cs rest h p =
    rw (not_equal c dollar h.0) (parser-frame noise cs rest h.1 p)
