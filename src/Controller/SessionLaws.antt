-- ===== src/Controller/SessionLaws.antt =====
-- What a message leaves in `command_str_`, and what a message without a frame executes.
use acionna.Prelude.{
  ℕ, zero, suc, ◌+◌, ◌≤◌, true, leb, ◌≡◌, ◌≢◌, refl, ◌∙◌, ap, arith, List, [], ◌∷◌, ◌++◌, none,
  some, get_or, length, ltb, if◌then◌else◌,
}
use acionna.Board.{Board}
use acionna.Controller.State.{Acionna}
use acionna.Controller.Frames.{
  dollar, semicolon, unfinished, parser, Plain, NoDollar, length-snoc, parser-frame,
}
use acionna.Controller.Message.{handle_message}
use acionna.Controller.Session.{
  Session, Payload, overlay, memcpy, load_frame, msg_fetch, executed, execute, run,
}

-- A message without the mark that ends a command.
abbrev pub Unfinished : List ℕ → Type 0
Unfinished [] = Unit
Unfinished (c ∷ cs) = (c ≢ semicolon) × Unfinished cs

no_frame_after :
    (bytes written : List ℕ)
    → Unfinished bytes
    → length written + length bytes ≤ 20
    → parser bytes (some written) ≡ unfinished
unfolding parser
no_frame_after [] written u h = refl
no_frame_after (c ∷ cs) written u h = ground (
  arith,
  u.0,
  h,
  length-snoc written c,
  no_frame_after cs (dollar ∷ []) u.1 (omega arith),
  no_frame_after cs (written ++ (c ∷ [])) u.1 (omega (arith, length-snoc written c)),
)

no_frame : (bytes : List ℕ) → Unfinished bytes → length bytes ≤ 20 → parser bytes none ≡ unfinished
unfolding parser
no_frame [] u h = refl
no_frame (c ∷ cs) u h =
    ground (arith, no_frame_after cs (dollar ∷ []) u.1 (omega arith), no_frame cs u.1 (omega arith))

-- A message of at most 20 bytes without ';' executes the command before once more: what
-- `handle_message` makes of the old `command_str_` is what the message makes of the state.
pub run-replays :
    (b : Board) (m : Payload) (s : Session) (w : b.World) (r : Acionna × b.World)
    → Unfinished m.bytes
    → length m.bytes ≤ 20
    → handle_message b m.source s.command_str s.acionna w ≡ some r
    → run b (some m) s w ≡ some (record s { acionna = r.0 }, r.1)
unfolding run msg_fetch
run-replays b m s w r u h e =
    ap (λ p. execute b m.source s.acionna w (load_frame p s.command_str)) (no_frame m.bytes u h)
    ∙ ap (executed s.command_str) e

overlay-places :
    (bytes old : List ℕ) (i : ℕ)
    → length bytes ≤ length old
    → get_or (overlay bytes old) i 0
      ≡ (if ltb i (length bytes) then get_or bytes i 0 else get_or old i 0)
unfolding overlay
overlay-places [] old i h = ground arith
overlay-places (c ∷ cs) [] i h = absurd (omega arith)
overlay-places (c ∷ cs) (o ∷ os) zero h = ground arith
overlay-places (c ∷ cs) (o ∷ os) (suc i) h = ground (arith, overlay-places cs os i (omega arith))

length-overlay : (bytes old : List ℕ) → length (overlay bytes old) ≡ length old
unfolding overlay
length-overlay [] old = refl
length-overlay (c ∷ cs) [] = refl
length-overlay (c ∷ cs) (o ∷ os) = ap suc (length-overlay cs os)

-- After a message with the frame `$`, a body without the marks, `;`, behind anything without a `$`, the
-- frame of at most 20 bytes: the fetch stays inside both arrays, `command_str_` keeps its 20 bytes, the
-- places of it that the frame covers are the frame's, and the places beyond keep what the messages
-- before left there.
pub msg_fetch-places :
    (noise cs rest old : List ℕ) (i : ℕ)
    → NoDollar noise
    → Plain cs
    → 2 + length cs ≤ 20
    → length old ≡ 20
    → let frame = dollar ∷ (cs ++ (semicolon ∷ [])) in
      (r : List ℕ) × (msg_fetch (noise ++ (dollar ∷ (cs ++ (semicolon ∷ rest)))) old ≡ some r)
      × (length r ≡ 20)
      × (get_or r i 0 ≡ (if ltb i (length frame) then get_or frame i 0 else get_or old i 0))
unfolding msg_fetch memcpy
msg_fetch-places noise cs rest old i n p short full =
    let bytes = dollar ∷ (cs ++ (semicolon ∷ [])) in
    let fits : length bytes ≤ length old = omega (arith, length-snoc cs semicolon) in
    let room : leb (2 + length cs) 20 ≡ true = ground arith in
    let inside : leb (length bytes) (length old) ≡ true = ground arith in
    (
      overlay bytes old,
      rw (parser-frame noise cs rest n p, room, inside) refl,
      length-overlay bytes old ∙ full,
      overlay-places bytes old i fits,
    )
