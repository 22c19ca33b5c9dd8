-- ===== src/Controller/Session.antt =====
-- Acionna::run (main/acionna/acionna.cpp): a message is fetched, executed and answered. The answer is
-- not modelled. `command_str` is the member `command_str_`, an array of 20 bytes. A result of `none` is
-- an access outside an array, after which nothing is known.
use acionna.Prelude.{ℕ, List, [], ◌∷◌, Option, none, some, length, leb, if◌then◌else◌}
use acionna.Board.{Board}
use acionna.Controller.State.{Acionna}
use acionna.Controller.SetClock.{TimeSource}
use acionna.Controller.Frames.{Parsed, frame, unfinished, overrun, parser}
use acionna.Controller.Message.{handle_message}

-- A message that has come in: its bytes, and the times that a command reads when it is executed.
pub record Payload : Type 0 where
  pub bytes : List ℕ
  pub source : TimeSource

pub record Session : Type 0 where
  pub command_str : List ℕ
  pub acionna : Acionna

-- The bytes of a frame over the first ones of a longer array.
unfoldable pub overlay : List ℕ → List ℕ → List ℕ
overlay [] old = old
overlay (c ∷ cs) [] = []
overlay (c ∷ cs) (o ∷ os) = c ∷ overlay cs os

-- memcpy(command_str_, frame, length): `none` is a copy past the end of `command_str_`.
unfoldable pub memcpy : List ℕ → List ℕ → Option (List ℕ)
memcpy bytes old = if leb (length bytes) (length old) then some (overlay bytes old) else none

-- A message without a whole frame has the length 0, so `command_str_` stays. `none` is a write past the
-- end of an array.
abbrev pub load_frame : Parsed → List ℕ → Option (List ℕ)
load_frame (frame bytes) old = memcpy bytes old
load_frame unfinished old = some old
load_frame overrun old = none

unfoldable pub msg_fetch : List ℕ → List ℕ → Option (List ℕ)
msg_fetch bytes old = load_frame (parser bytes none) old

abbrev pub executed : {W : Type 0} → List ℕ → Option (Acionna × W) → Option (Session × W)
executed command none = none
executed command (some r) = some (record { command_str = command; acionna = r.0 }, r.1)

module _ (b : Board) where
  open b use {World}

  -- The command that was fetched is executed.
  abbrev pub execute : TimeSource → Acionna → World → Option (List ℕ) → Option (Session × World)
  execute source a w none = none
  execute source a w (some command) = executed command (handle_message b source command a w)

  -- The flags of the answer are on from the fetch to the end of `run`, so nothing is executed
  -- without a message.
  unfoldable pub run : Option Payload → Session → World → Option (Session × World)
  run none s w = some (s, w)
  run (some m) s w = execute m.source s.acionna w (msg_fetch m.bytes s.command_str)
