-- ===== src/MyString/Laws.antt =====
-- What the two methods copy.
use acionna.Prelude.{
  ℕ, zero, suc, ◌+◌, ◌≡◌, refl, ◌∙◌, ap, arith, Bool, true, false, ◌||◌, ◌==◌, ltb, if◌then◌else◌,
  List, [], ◌∷◌, ◌++◌, none, some, length,
}
use acionna.MyString.{
  Part, found, out_of_bounds, is_delimiter, copied, drop, cut, substring, is_quote, cut_console,
  substring_console,
}

-- None of the characters has the property.
abbrev pub Without : (ℕ → Bool) → List ℕ → Type 0
Without test [] = Unit
Without test (c ∷ cs) = (test c ≡ false) × Without test cs

-- The text ends, or its next character is a delimiter.
abbrev pub Stops : List ℕ → List ℕ → Type 0
Stops delimiter [] = Unit
Stops delimiter (c ∷ cs) = is_delimiter c delimiter ≡ true

-- Every character is copied.
abbrev pub prefixed : List ℕ → Part → Part
prefixed [] p = p
prefixed (c ∷ cs) p = copied c (prefixed cs p)

prefixed-found : (cs ys : List ℕ) (i : ℕ) → prefixed cs (found i ys) ≡ found i (cs ++ ys)
prefixed-found [] ys i = refl
prefixed-found (c ∷ cs) ys i = ap (copied c) (prefixed-found cs ys i)

append-nil : (cs : List ℕ) → cs ++ [] ≡ cs
append-nil [] = refl
append-nil (c ∷ cs) = ap (λ (xs : List ℕ). c ∷ xs) (append-nil cs)

drop-append : (xs ys : List ℕ) → drop (length xs) (xs ++ ys) ≡ ys
drop-append [] ys = refl
drop-append (x ∷ xs) ys = drop-append xs ys

length-append : (xs ys : List ℕ) → length (xs ++ ys) ≡ length xs + length ys
length-append [] ys = omega arith
length-append (x ∷ xs) ys = omega (arith, length-append xs ys)

cut-Stops : (ds rest : List ℕ) (i : ℕ) → Stops ds rest → cut ds rest i ≡ found i []
unfolding cut
cut-Stops ds [] i h = refl
cut-Stops ds (c ∷ cs) i h = rw h refl

cut-token :
    (ds token rest : List ℕ) (i : ℕ)
    → Without (λ c. is_delimiter c ds) token
    → cut ds (token ++ rest) i ≡ prefixed token (cut ds rest (i + length token))
unfolding cut
cut-token ds [] rest i h = ap (cut ds rest) (omega arith)
cut-token ds (c ∷ cs) rest i (e, h) =
    let ih = cut-token ds cs rest (i + 1) h in
    let place : i + 1 + length cs ≡ i + suc (length cs) = omega arith in
    rw e (ap (copied c) (ih ∙ ap (λ (k : ℕ). prefixed cs (cut ds rest k)) place))

within : (front cs : List ℕ) (c : ℕ) → ltb (length front) (length (front ++ (c ∷ cs))) ≡ true
within front cs c = ground (arith, length-append front (c ∷ cs))

-- From the beginning of a token that has no delimiter, up to the next delimiter or the end of the text,
-- `substring` copies the token, and returns the place after it.
pub substring-token :
    (front : List ℕ) (c : ℕ) (token rest ds : List ℕ)
    → Without (λ d. is_delimiter d ds) (c ∷ token)
    → Stops ds rest
    → substring (front ++ (c ∷ token ++ rest)) ds (length front)
      ≡ found (length front + length (c ∷ token)) (c ∷ token)
unfolding substring
substring-token front c token rest ds h stop =
    let text : List ℕ = c ∷ token ++ rest in
    let e : drop (length front) (front ++ text) ≡ text = drop-append front text in
    rw (within front (token ++ rest) c, e)
      (cut-token ds (c ∷ token) rest (length front) h
        ∙ ap (prefixed (c ∷ token)) (cut-Stops ds rest (length front + length (c ∷ token)) stop)
        ∙ prefixed-found (c ∷ token) [] _
        ∙ ap (found (length front + length (c ∷ token))) (append-nil (c ∷ token)))

console-quoted :
    (ds body rest : List ℕ) (quot i : ℕ)
    → Without (λ c. c == quot) body
    → is_delimiter quot ds ≡ false
    → cut_console ds (some quot) (body ++ (quot ∷ rest)) i
      ≡ prefixed body (copied quot (cut_console ds none rest (i + length body + 1)))
unfolding cut_console
console-quoted ds [] rest quot i h n =
    let same : (quot == quot) ≡ true = ground arith in
    rw (same, n) (ap (λ (k : ℕ). copied quot (cut_console ds none rest k)) (omega arith))
console-quoted ds (c ∷ cs) rest quot i (e, h) n =
    let ih = console-quoted ds cs rest quot (i + 1) h n in
    let place : i + 1 + length cs + 1 ≡ i + suc (length cs) + 1 = omega arith in
    rw e (
      ap (copied c)
        (ih ∙ ap (λ (k : ℕ). prefixed cs (copied quot (cut_console ds none rest k))) place))

delimiter-unquoted :
    (c : ℕ) (ds : List ℕ) → is_delimiter c ds ≡ true → Without is_quote ds → is_quote c ≡ false
delimiter-unquoted c [] h q = cc
delimiter-unquoted c (d ∷ ds) h (e, q) =
    either (is_delimiter c ds) h (λ k. delimiter-unquoted c ds k q)
  where
    either :
        (b : Bool) → ((c == d) || b) ≡ true → (b ≡ true → is_quote c ≡ false) → is_quote c ≡ false
    either true k f = f refl
    either false k f = ground (arith, e, k)

quote-undelimited :
    (c : ℕ) (ds : List ℕ) → is_quote c ≡ true → Without is_quote ds → is_delimiter c ds ≡ false
quote-undelimited c [] h q = refl
quote-undelimited c (d ∷ ds) h (e, q) =
    let rest = quote-undelimited c ds h q in rw rest (ground (arith, h, e))

console-Stops :
    (ds rest : List ℕ) (i : ℕ)
    → Stops ds rest
    → Without is_quote ds
    → cut_console ds none rest i ≡ found i []
unfolding cut_console
console-Stops ds [] i h q = refl
console-Stops ds (c ∷ cs) i h q = rw (delimiter-unquoted c ds h q, h) refl

-- A text in quotation marks is copied whole, marks and delimiters included, if neither of the two marks
-- is itself a delimiter.
pub substring_console-quoted :
    (front : List ℕ) (quot : ℕ) (body rest ds : List ℕ)
    → is_quote quot ≡ true
    → Without (λ c. c == quot) body
    → Without is_quote ds
    → Stops ds rest
    → substring_console (front ++ (quot ∷ body ++ (quot ∷ rest))) ds (length front)
      ≡ found (length front + length body + 2) (quot ∷ body ++ (quot ∷ []))
unfolding substring_console cut_console
substring_console-quoted front quot body rest ds q h n stop =
    let i : ℕ = length front in
    let e = drop-append front (quot ∷ body ++ (quot ∷ rest)) in
    let undelimited = quote-undelimited quot ds q n in
    let k : ℕ = i + 1 + length body + 1 in
    let copy =
      console-quoted ds body rest quot (i + 1) h undelimited
      ∙ ap (λ (p : Part). prefixed body (copied quot p)) (console-Stops ds rest k stop n)
      ∙ prefixed-found body (quot ∷ []) k in
    let place : k ≡ i + length body + 2 = omega arith in
    rw (within front (body ++ (quot ∷ rest)) quot, e)
      (rw q (ap (copied quot) copy ∙ ap (λ (j : ℕ). found j (quot ∷ body ++ (quot ∷ []))) place))

console-unclosed :
    (ds body : List ℕ) (quot i : ℕ)
    → Without (λ c. c == quot) body
    → cut_console ds (some quot) body i ≡ out_of_bounds
unfolding cut_console
console-unclosed ds [] quot i h = refl
console-unclosed ds (c ∷ cs) quot i (e, h) =
    let rest = console-unclosed ds cs quot (i + 1) h in rw e (ap (copied c) rest)

-- A quotation mark that is not closed makes the method read after the end of the text.
substring_console-unclosed :
    (front : List ℕ) (quot : ℕ) (body ds : List ℕ)
    → is_quote quot ≡ true
    → Without (λ c. c == quot) body
    → substring_console (front ++ (quot ∷ body)) ds (length front) ≡ out_of_bounds
unfolding substring_console cut_console
substring_console-unclosed front quot body ds q h =
    let e = drop-append front (quot ∷ body) in
    rw (within front body quot, e)
      (rw q (ap (copied quot) (console-unclosed ds body quot (length front + 1) h)))

cut_console-cut :
    (ds text : List ℕ) (i : ℕ) → Without is_quote text → cut_console ds none text i ≡ cut ds text i
unfolding cut_console cut
cut_console-cut ds [] i h = refl
cut_console-cut ds (c ∷ cs) i (e, h) =
    let rest = cut_console-cut ds cs (i + 1) h in
    rw e (ap (λ (p : Part). if is_delimiter c ds then found i [] else copied c p) rest)

drop-Without : (n : ℕ) (text : List ℕ) → Without is_quote text → Without is_quote (drop n text)
drop-Without zero text h = h
drop-Without (suc n) [] h = tt
drop-Without (suc n) (c ∷ cs) (e, h) = drop-Without n cs h

-- Where the text has no quotation mark, the two methods agree.
pub substring_console-substring :
    (text ds : List ℕ) (pos : ℕ)
    → Without is_quote text
    → substring_console text ds pos ≡ substring text ds pos
unfolding substring_console substring
substring_console-substring text ds pos h =
    ap (λ (p : Part). if ltb pos (length text) then p else Part.failed)
      (cut_console-cut ds (drop pos text) pos (drop-Without pos text h))
