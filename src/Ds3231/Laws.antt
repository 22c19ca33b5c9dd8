-- ===== src/Ds3231/Laws.antt =====
-- What is written to the clock module and read from it again.
use acionna.Prelude.{
  ℕ, ◌%◌, ◌&&◌, all_below, all_below_sound, ◌+◌, ◌-◌, ◌/◌, ◌≤◌, ◌<◌, ◌≡◌, refl, ◌∙◌, ap, true,
  arith, ◌==◌, Bool, List, [], ◌∷◌, get_or, set, length, u16, bit_and, if◌then◌else◌,
}
use acionna.Board.{Board}
use acionna.Clock.{month_length}
use acionna.Ds3231.{
  Ds3231, Format, addr, reg_seconds, decode_second, decode_hour, decode_day, encode_second,
  encode_year, encode_week_day, year_of, read, fetch, date_time, n_registers, with_date, with_time,
  bytes_from, format_of,
}

-- The days of a month of the years 2000 to 2099.
abbrev pub last_day : ℕ → ℕ → ℕ
last_day yr mo =
    let days = get_or month_length (mo - 1) 0 in
    if (mo == 2) && (yr % 4 == 0) then days + 1 else days

-- A date and a time that the module can hold.
pub record IsLegal (yr mo da hou min sec week : ℕ) : Type 0 where
  pub year_low : 2000 ≤ yr
  pub year_high : yr < 2100
  pub month_low : 1 ≤ mo
  pub month_high : mo ≤ 12
  pub day_low : 1 ≤ da
  pub day_high : da ≤ 31
  pub day_fits : da ≤ last_day yr mo
  pub hour_high : hou < 24
  pub minute_high : min < 60
  pub second_high : sec < 60
  pub week_low : 1 ≤ week
  pub week_high : week ≤ 7

abbrev pub written : ℕ → ℕ → ℕ → ℕ → ℕ → ℕ → ℕ → List ℕ
written yr mo da hou min sec week =
    encode_second sec
    ∷ encode_second min
    ∷ encode_second hou
    ∷ week
    ∷ encode_second da
    ∷ encode_second mo
    ∷ encode_year yr
    ∷ []

-- Until a second passes, the registers of the date and time keep a legal date and time, in the 24-hour
-- format, that was written to them, and a read of `len` registers shows it.
pub record KeepsDate (b : Board) (len : ℕ) : Type 0 where
  pub kept :
      (yr mo da hou min sec week : ℕ) (w : b.World) (i : ℕ)
      → IsLegal yr mo da hou min sec week
      → i < 7
      → get_or
          (read b reg_seconds len
            (b.transmit addr (reg_seconds ∷ written yr mo da hou min sec week) w)).0
          i
          0
        ≡ get_or (written yr mo da hou min sec week) i 0

tested : (n : ℕ) (f : ℕ → ℕ) → (f n == n) ≡ true → f n ≡ n
tested n f e = ground arith

all_days : all_below 100 (λ n. decode_day (encode_second n) == n) ≡ true
unfolding all_below decode_day encode_second
all_days = refl

all_seconds : all_below 80 (λ n. decode_second (encode_second n) == n) ≡ true
unfolding all_below decode_second encode_second
all_seconds = refl

all_hours : all_below 40 (λ n. decode_hour (encode_second n) == n) ≡ true
unfolding all_below decode_hour encode_second
all_hours = refl

all_h24 : all_below 40 (λ n. bit_and (encode_second n / 64) 1 == 0) ≡ true
unfolding all_below encode_second
all_h24 = refl

pub day_lem : (n : ℕ) → n < 100 → decode_day (encode_second n) ≡ n
day_lem n h = tested n (λ k. decode_day (encode_second k)) (all_below_sound _ 100 n h all_days)

pub second_lem : (n : ℕ) → n < 80 → decode_second (encode_second n) ≡ n
second_lem n h =
    tested n (λ k. decode_second (encode_second k)) (all_below_sound _ 80 n h all_seconds)

pub hour_lem : (n : ℕ) → n < 40 → decode_hour (encode_second n) ≡ n
hour_lem n h = tested n (λ k. decode_hour (encode_second k)) (all_below_sound _ 40 n h all_hours)

pub format_lem : (n : ℕ) → n < 40 → format_of (encode_second n) ≡ Format.h24
format_lem n h =
    ap (λ (t : Bool). if t then Format.h24 else Format.h12) (all_below_sound _ 40 n h all_h24)

year_lem : (yr : ℕ) → 2000 ≤ yr → encode_year yr ≡ encode_second (yr - 2000)
unfolding encode_year
year_lem yr h = ground arith

-- The seven bytes that are written.
sent :
    (yr mo da hou min sec week : ℕ) (raw : List ℕ)
    → 7 ≤ length raw
    → bytes_from 0 7 (with_date yr mo da (set (with_time hou min sec raw) 3 week))
      ≡ written yr mo da hou min sec week
sent yr mo da hou min sec week [] h = absurd (omega arith)
sent yr mo da hou min sec week (a ∷ []) h = absurd (omega arith)
sent yr mo da hou min sec week (a ∷ b ∷ []) h = absurd (omega arith)
sent yr mo da hou min sec week (a ∷ b ∷ c ∷ []) h = absurd (omega arith)
sent yr mo da hou min sec week (a ∷ b ∷ c ∷ d ∷ []) h = absurd (omega arith)
sent yr mo da hou min sec week (a ∷ b ∷ c ∷ d ∷ e ∷ []) h = absurd (omega arith)
sent yr mo da hou min sec week (a ∷ b ∷ c ∷ d ∷ e ∷ f ∷ []) h = absurd (omega arith)
sent yr mo da hou min sec week (a ∷ b ∷ c ∷ d ∷ e ∷ f ∷ g ∷ raw) h = refl

pub year_found : (yr : ℕ) → 2000 ≤ yr → yr < 2100 → u16 (decode_day (encode_year yr) + 2000) ≡ yr
year_found yr low high =
    let e : encode_year yr ≡ encode_second (yr - 2000) = year_lem yr low in
    rw e (omega (arith, day_lem (yr - 2000) (omega arith)))

-- What the registers show after `date_time` wrote its seven bytes.
pub registers_shown :
    (b : Board) (len : ℕ)
    → KeepsDate b len
    → (yr mo da hou min sec week : ℕ) (raw : List ℕ) (w : b.World) (i : ℕ)
    → IsLegal yr mo da hou min sec week
    → 7 ≤ length raw
    → i < 7
    → get_or
        (read b reg_seconds len (
          b.transmit addr
            (reg_seconds
              ∷ bytes_from 0 7 (with_date yr mo da (set (with_time hou min sec raw) 3 week)))
            w)).0
        i
        0
      ≡ get_or (written yr mo da hou min sec week) i 0
registers_shown b len k yr mo da hou min sec week raw w i legal l p =
    ap
      (λ (bytes : List ℕ).
        get_or (read b reg_seconds len (b.transmit addr (reg_seconds ∷ bytes) w)).0 i 0)
      (sent yr mo da hou min sec week raw l)
    ∙ k.kept yr mo da hou min sec week w i legal p

-- With a module whose registers keep a legal date and time, the date and time that `date_time` sets are
-- the ones that `fetch` reads back, in the 24-hour format: a date of the years 2000 to 2099 and a time
-- of the day.
pub fetch-date_time :
    (b : Board)
    → KeepsDate b n_registers
    → (yr mo da hou min sec : ℕ) (x : Ds3231) (w : b.World) → 7 ≤ length x.data_raw
    → IsLegal yr mo da hou min sec 1
    → let (y, w') = date_time b yr mo da hou min sec x w in
      let r = (fetch b y w').0 in
      (year_of r ≡ yr)
      × (r.month ≡ mo)
      × (r.day ≡ da)
      × (r.hour ≡ hou)
      × (r.min ≡ min)
      × (r.sec ≡ sec)
      × (r.format ≡ Format.h24)
unfolding date_time fetch year_of encode_week_day
fetch-date_time b k yr mo da hou min sec x w l legal =
    let found =
      registers_shown b n_registers k yr mo da hou min sec (encode_week_day 1) x.data_raw w in
    (
      ap (λ (t : ℕ). u16 (decode_day t + 2000)) (found 6 legal l (omega arith))
          ∙ year_found yr legal.year_low legal.year_high,
      ap decode_day (found 5 legal l (omega arith)) ∙ day_lem mo (omega (arith, legal.month_high)),
      ap decode_day (found 4 legal l (omega arith)) ∙ day_lem da (omega (arith, legal.day_high)),
      ap decode_hour (found 2 legal l (omega arith))
          ∙ hour_lem hou (omega (arith, legal.hour_high)),
      ap decode_second (found 1 legal l (omega arith))
          ∙ second_lem min (omega (arith, legal.minute_high)),
      ap decode_second (found 0 legal l (omega arith))
          ∙ second_lem sec (omega (arith, legal.second_high)),
      ap format_of (found 2 legal l (omega arith))
          ∙ format_lem hou (omega (arith, legal.hour_high)),
    )
