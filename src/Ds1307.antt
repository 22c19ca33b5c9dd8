-- ===== src/Ds1307.antt =====
-- Class DS1307 (components/modules/ds1307/ds1307.cpp): the older clock module. Its registers hold date
-- and time in the digits of DS3231, whose functions on one register it repeats, so they are the
-- ones of Ds3231 here, the names of the formats and of the halves of the day included. The
-- transfers' status is dropped, as the source drops it.
pub mod Laws
mod Tests
use acionna.Prelude.{
  ℕ, ◌/◌, ◌+◌, Bool, List, [], ◌∷◌, ◌==◌, if◌then◌else◌, bit_and, bit_or, get_or, set, u16,
}
use acionna.Board.{Board}
use acionna.Ds3231.{
  Format, Period, decode_second, decode_hour, decode_day, encode_week_day, format_of, period_of,
  same_format, with_format, with_date, with_time, bytes_from,
}

pub data Ctrl : Type 0 where
  sqw_1_hz sqw_4096_hz sqw_8192_hz sqw_32768_hz sqw_low sqw_high : Ctrl

pub record Ds1307 : Type 0 where
  pub data_raw : List ℕ
  pub sec : ℕ
  pub min : ℕ
  pub hour : ℕ
  pub week_day : ℕ
  pub day : ℕ
  pub month : ℕ
  pub year : ℕ
  pub ctrl : ℕ
  pub format : Format
  pub period : Period

abbrev pub addr : ℕ
addr = 0x68

abbrev pub reg_seconds : ℕ
reg_seconds = 0x00

abbrev pub reg_hours : ℕ
reg_hours = 0x02

abbrev pub reg_day : ℕ
reg_day = 0x04

abbrev pub reg_ctrl : ℕ
reg_ctrl = 0x07

-- sizeof(data_raw_)
abbrev pub n_registers : ℕ
n_registers = 8

-- year()
unfoldable pub year_of : Ds1307 → ℕ
year_of x = u16 (x.year + 2000)

-- The control byte of a mode of the output.
abbrev pub ctrl_byte : Ctrl → ℕ
ctrl_byte Ctrl.sqw_1_hz = 0x10
ctrl_byte Ctrl.sqw_4096_hz = 0x11
ctrl_byte Ctrl.sqw_8192_hz = 0x12
ctrl_byte Ctrl.sqw_32768_hz = 0x13
ctrl_byte Ctrl.sqw_low = 0x00
ctrl_byte Ctrl.sqw_high = 0x80

abbrev decoded : List ℕ → Ds1307 → Ds1307
decoded raw x = record x {
  data_raw = raw;
  sec = decode_second (get_or raw 0 0);
  min = decode_second (get_or raw 1 0);
  hour = decode_hour (get_or raw 2 0);
  week_day = get_or raw 3 0;
  day = decode_day (get_or raw 4 0);
  month = decode_day (get_or raw 5 0);
  year = decode_day (get_or raw 6 0);
  ctrl = get_or raw 7 0;
  format = format_of (get_or raw 2 0);
  period = period_of (get_or raw 2 0) x.period;
}

module _ (b : Board) where
  open b use {World, transmit, transmit_receive}

  -- i2c_->read(DS1307_ADDR, reg, data, len)
  abbrev pub read : ℕ → ℕ → World → List ℕ × World
  read reg len w = transmit_receive addr (reg ∷ []) len w

  unfoldable pub probe : World → Bool × World
  probe w = b.probe addr w

  unfoldable pub fetch : Ds1307 → World → Ds1307 × World
  fetch x w = let (raw, w') = read reg_seconds n_registers w in (decoded raw x, w')

  -- The highest bit of the seconds stops the clock.
  unfoldable pub enable : ℕ → World → World
  enable status w =
      let (raw, w') = read reg_seconds 1 w in
      let byte = get_or raw 0 0 in
      let stopped = bit_and (byte / 128) 1 in
      if status == 0
      then (if stopped == 0 then transmit addr (reg_seconds ∷ bit_or byte 128 ∷ []) w' else w')
      else if stopped == 0
      then w'
      else transmit addr (reg_seconds ∷ bit_and byte 127 ∷ []) w'

  -- ctrl(mode)
  unfoldable pub set_ctrl : Ctrl → Ds1307 → World → Ds1307 × World
  set_ctrl mode x w =
      (record x { ctrl = ctrl_byte mode }, transmit addr (reg_ctrl ∷ ctrl_byte mode ∷ []) w)

  -- format(format), which leaves `format_` as it is.
  unfoldable pub set_format : Format → Ds1307 → World → Ds1307 × World
  set_format f x w =
      let hours = with_format f (get_or x.data_raw 2 0) in
      if same_format f x.format then (x, w) else (
        record x { data_raw = set x.data_raw 2 hours },
        transmit addr (reg_hours ∷ hours ∷ []) w,
      )

  unfoldable pub init : Ds1307 → World → Ds1307 × World
  init x w =
      let (x1, w1) = fetch x w in
      let (x2, w2) = set_ctrl Ctrl.sqw_low x1 w1 in
      let (x3, w3) = set_format Format.h24 x2 w2 in (x3, enable 1 w3)

  unfoldable pub date_time : ℕ → ℕ → ℕ → ℕ → ℕ → ℕ → Ds1307 → World → Ds1307 × World
  date_time yr mo da hou min sec x w =
      let raw = with_date yr mo da (set (with_time hou min sec x.data_raw) 3 (encode_week_day 1)) in
      (record x { data_raw = raw }, transmit addr (reg_seconds ∷ bytes_from 0 7 raw) w)

  unfoldable pub date : ℕ → ℕ → ℕ → Ds1307 → World → Ds1307 × World
  date yr mo da x w =
      let raw = with_date yr mo da x.data_raw in
      (record x { data_raw = raw }, transmit addr (reg_day ∷ bytes_from 4 3 raw) w)

  unfoldable pub time : ℕ → ℕ → ℕ → Ds1307 → World → Ds1307 × World
  time hou min sec x w =
      let raw = with_time hou min sec x.data_raw in
      (record x { data_raw = raw }, transmit addr (reg_seconds ∷ bytes_from 0 3 raw) w)
