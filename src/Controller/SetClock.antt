-- ===== src/Controller/SetClock.antt =====
-- Acionna::handle_message (main/acionna/acionna.cpp): the commands $10, which set the clock.
use acionna.Prelude.{ℕ, ◌+◌, ◌*◌, if◌then◌else◌, List, [], ◌∷◌, Option, none, some, u8, u16, u32}
use acionna.Clock.Clockin
use acionna.Clock.Clockin.{Clockin}
use acionna.Controller.State.{Acionna}
use acionna.Controller.Command.{at_place, matches}
use acionna.Controller.Settings.{atoi, word_of, int_at}

-- What a command reads from outside: the seconds since the chip was switched on, and the seconds since
-- 1970 that the time server answers, if it answers in time.
pub record TimeSource : Type 0 where
  pub uptime : ℕ
  pub server_time : Option ℕ

-- The `uint8_t` that an `int` of two characters becomes.
abbrev byte_at : List ℕ → ℕ → ℕ
byte_at command i = u8 (word_of (int_at command i))

abbrev year_at : List ℕ → ℕ → ℕ
year_at command i = u16 (
    word_of (
      atoi (
        at_place command i
        ∷ at_place command (i + 1)
        ∷ at_place command (i + 2)
        ∷ at_place command (i + 3)
        ∷ [])))

-- dt_.update(); time_day_sec_ = ...
unfoldable pub take_over : ℕ → Clockin → Acionna → Acionna
take_over uptime c a =
    let dt = Clockin.update uptime c in
    record a {
      dt = dt;
      time_day_sec = u32 (Clockin.hour_of dt * 3600 + dt.dt.minute * 60 + dt.dt.second);
    }

-- The first lines of Acionna::init.
unfoldable pub init_clock : ℕ → Acionna → Acionna
init_clock uptime a = take_over uptime (Clockin.date_time 2023 7 10 0 0 0 a.dt) a

-- $10:h:063015;
unfoldable pub set_clock_time : List ℕ → ℕ → Acionna → Acionna
set_clock_time command uptime a =
    let c1 = Clockin.hour (byte_at command 6) a.dt in
    let c2 = Clockin.minute (byte_at command 8) c1 in
    take_over uptime (Clockin.second (byte_at command 10) c2) a

-- $10:d:13122022; sets the day first.
unfoldable pub set_clock_date : List ℕ → ℕ → Acionna → Acionna
set_clock_date command uptime a =
    let c1 = Clockin.day (byte_at command 6) a.dt in
    let c2 = Clockin.month (byte_at command 8) c1 in
    record a { dt = Clockin.update uptime (Clockin.year (year_at command 10) c2) }

-- $10:n;
unfoldable pub set_clock_server : Option ℕ → ℕ → Acionna → Acionna
set_clock_server none uptime a = a
set_clock_server (some ut) uptime a = take_over uptime (Clockin.set_unix_time ut a.dt) a

unfoldable pub command_1 : TimeSource → List ℕ → Acionna → Acionna
command_1 source command a =
    if matches command ((3, 58) ∷ (4, 104) ∷ (5, 58) ∷ (12, 59) ∷ [])
    then set_clock_time command source.uptime a
    else if matches command ((3, 58) ∷ (4, 100) ∷ (5, 58) ∷ (14, 59) ∷ [])
    then set_clock_date command source.uptime a
    else if matches command ((3, 58) ∷ (4, 110) ∷ (5, 59) ∷ [])
    then set_clock_server source.server_time source.uptime a
    else a
