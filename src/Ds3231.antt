-- ===== src/Ds3231.antt =====
-- Class DS3231 (components/modules/ds3231/ds3231.cpp): the clock module with a battery, which keeps
-- date and time in registers of two decimal digits each. A method takes the object and the board's
-- world. The transfers' status is dropped, as the source drops it.
pub mod Laws
mod Tests
use acionna.Prelude.{
  ℕ, zero, suc, ◌+◌, ◌-◌, ◌*◌, ◌/◌, ◌%◌, Bool, true, false, List, [], ◌∷◌, ◌==◌, ltb, if◌then◌else◌,
  bit_and, bit_or, get_or, set, take, u8, u16, replicate,
}
use acionna.Board.{Board}

pub data Format : Type 0 where
  h24 h12 : Format

pub data Period : Type 0 where
  am pm : Period

pub record Ds3231 : Type 0 where
  pub data_raw : List ℕ
  pub sec : ℕ
  pub min : ℕ
  pub hour : ℕ
  pub week_day : ℕ
  pub day : ℕ
  pub month : ℕ
  pub year : ℕ
  pub ctrl : ℕ
  pub format : Format
  pub period : Period

abbrev pub addr : ℕ
addr = 0x68

abbrev pub reg_seconds : ℕ
reg_seconds = 0x00

abbrev pub reg_hours : ℕ
reg_hours = 0x02

abbrev pub reg_day : ℕ
reg_day = 0x04

abbrev pub reg_ctrl : ℕ
reg_ctrl = 0x0e

-- sizeof(data_raw_)
abbrev pub n_registers : ℕ
n_registers = 19

-- (data >> k) & 0x01, the bit of the value 2^k.
abbrev bit_of : ℕ → ℕ → ℕ
bit_of value raw = bit_and (raw / value) 1

unfoldable pub decode_second : ℕ → ℕ
decode_second raw = u8 (bit_and (raw / 16) 7 * 10 + bit_and raw 15)

unfoldable pub decode_hour : ℕ → ℕ
decode_hour raw =
    if bit_of 64 raw == 0
    then u8 (raw / 16 * 10 + bit_and raw 15)
    else u8 (bit_and (raw / 16) 1 * 10 + bit_and raw 15)

-- Also of the month and the year.
unfoldable pub decode_day : ℕ → ℕ
decode_day raw = u8 (raw / 16 * 10 + bit_and raw 15)

-- Also of the minute, the hour, the day and the month.
unfoldable pub encode_second : ℕ → ℕ
encode_second n = u8 (bit_or (n / 10 * 16) (n % 10))

unfoldable pub encode_week_day : ℕ → ℕ
encode_week_day week = week % 10

-- The years since 2000; before, a negative `int` and the low 8 bits of its two's complement.
unfoldable pub encode_year : ℕ → ℕ
encode_year year =
    let before = 2000 - year in
    if ltb year 2000
    then bit_or (u8 (256 - u8 (before / 10 * 16))) (u8 (256 - before % 10))
    else encode_second (year - 2000)

-- year()
unfoldable pub year_of : Ds3231 → ℕ
year_of x = u16 (x.year + 2000)

abbrev pub format_of : ℕ → Format
format_of hours = if bit_of 64 hours == 0 then Format.h24 else Format.h12

abbrev pub period_of : ℕ → Period → Period
period_of hours old =
    if bit_of 64 hours == 0 then old else if bit_of 32 hours == 0 then Period.am else Period.pm

abbrev decoded : List ℕ → Ds3231 → Ds3231
decoded raw x = record x {
  data_raw = raw;
  sec = decode_second (get_or raw 0 0);
  min = decode_second (get_or raw 1 0);
  hour = decode_hour (get_or raw 2 0);
  week_day = get_or raw 3 0;
  day = decode_day (get_or raw 4 0);
  month = decode_day (get_or raw 5 0);
  year = decode_day (get_or raw 6 0);
  ctrl = get_or raw 14 0;
  format = format_of (get_or raw 2 0);
  period = period_of (get_or raw 2 0) x.period;
}

abbrev pub same_format : Format → Format → Bool
same_format Format.h24 Format.h24 = true
same_format Format.h12 Format.h12 = true
same_format _ _ = false

-- The hour's register with the bit of the format.
abbrev pub with_format : Format → ℕ → ℕ
with_format Format.h12 hours = bit_or hours 64
with_format Format.h24 hours = bit_and hours 191

abbrev pub with_date : ℕ → ℕ → ℕ → List ℕ → List ℕ
with_date yr mo da raw =
    set (set (set raw 4 (encode_second da)) 5 (encode_second mo)) 6 (encode_year yr)

abbrev pub with_time : ℕ → ℕ → ℕ → List ℕ → List ℕ
with_time hou min sec raw =
    set (set (set raw 0 (encode_second sec)) 1 (encode_second min)) 2 (encode_second hou)

-- `len` bytes of `data_raw_` from a place on.
abbrev pub bytes_from : ℕ → ℕ → List ℕ → List ℕ
bytes_from place zero raw = []
bytes_from place (suc len) raw = get_or raw place 0 ∷ bytes_from (place + 1) len raw

-- ctrl(mode), of any mode.
unfoldable pub clear_ctrl : Ds3231 → Ds3231
clear_ctrl x = record x { ctrl = 0 }

module _ (b : Board) where
  open b use {World, transmit, transmit_receive}

  -- i2c_->read(DS3231_ADDR, reg, data, len)
  abbrev pub read : ℕ → ℕ → World → List ℕ × World
  read reg len w = transmit_receive addr (reg ∷ []) len w

  unfoldable pub fetch : Ds3231 → World → Ds3231 × World
  fetch x w = let (raw, w') = read reg_seconds n_registers w in (decoded raw x, w')

  unfoldable pub enable : ℕ → World → World
  enable status w =
      let (raw, w') = read reg_ctrl 1 w in
      let byte = get_or raw 0 0 in
      let stopped = bit_of 128 byte in
      if status == 0
      then (if stopped == 0 then transmit addr (reg_ctrl ∷ bit_or byte 128 ∷ []) w' else w')
      else if stopped == 0
      then w'
      else transmit addr (reg_ctrl ∷ bit_and byte 127 ∷ []) w'

  -- format(format), which leaves `format_` as it is.
  unfoldable pub set_format : Format → Ds3231 → World → Ds3231 × World
  set_format f x w =
      let hours = with_format f (get_or x.data_raw 2 0) in
      if same_format f x.format then (x, w) else (
        record x { data_raw = set x.data_raw 2 hours },
        transmit addr (reg_hours ∷ hours ∷ []) w,
      )

  unfoldable pub probe : World → Bool × World
  probe w = b.probe addr w

  unfoldable pub init : Ds3231 → World → Ds3231 × World
  init x w = let (y, w1) = fetch x w in let (z, w2) = set_format Format.h24 y w1 in (z, enable 1 w2)

  unfoldable pub date_time : ℕ → ℕ → ℕ → ℕ → ℕ → ℕ → Ds3231 → World → Ds3231 × World
  date_time yr mo da hou min sec x w =
      let raw = with_date yr mo da (set (with_time hou min sec x.data_raw) 3 (encode_week_day 1)) in
      (record x { data_raw = raw }, transmit addr (reg_seconds ∷ bytes_from 0 7 raw) w)

  unfoldable pub date : ℕ → ℕ → ℕ → Ds3231 → World → Ds3231 × World
  date yr mo da x w =
      let raw = with_date yr mo da x.data_raw in
      (record x { data_raw = raw }, transmit addr (reg_day ∷ bytes_from 4 3 raw) w)

  unfoldable pub time : ℕ → ℕ → ℕ → Ds3231 → World → Ds3231 × World
  time hou min sec x w =
      let raw = with_time hou min sec x.data_raw in
      (record x { data_raw = raw }, transmit addr (reg_seconds ∷ bytes_from 0 3 raw) w)
