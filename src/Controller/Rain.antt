-- ===== src/Controller/Rain.antt =====
-- The command $80:v:NN:u:... of the rain.
use acionna.Prelude.{
  ℕ, zero, suc, ◌+◌, ◌<◌, ◌≡◌, ◌≢◌, ◌∙◌, ap, arith, length, length-set, Bool, false,
  get_or-set_self, get_or-set_ne, Bool-cases, ◌==◌, ◌||◌, inl, inr, if◌then◌else◌, List, [], ◌∷◌,
}
use acionna.Board.{Board, Fpu}
use acionna.Valves.State.{
  Valves, Sector, empty_sector, sector, for_all, set_valve_rain_mm, calc_time_by_rain_mm, n_valves,
}
use acionna.Valves.Flow.{volume_of, time_of}
use acionna.Valves.Rain.{rained, each, length-for_all, sector-for_all}
use acionna.Controller.Sectors.{set_rain, look_all}

-- The sectors that an id stands for.
abbrev pub chosen : ℕ → ℕ → Bool
chosen id i = (id == 0) || (id == i)

not_all : (k : ℕ) → (suc k == 0) ≡ false
not_all k = ground arith

module _ (f : Fpu) (r_mm : ℕ) where
  abbrev wet : Sector → Sector
  wet s = record s { rain_mm = r_mm }

  abbrev timed : Sector → Sector
  timed s =
      let volume = volume_of f s.rain_mm s.area in
      record s { volume = volume; time_elapsed_cfg = time_of f volume s.flow }

  all_rained :
      (i : ℕ) (v : Valves)
      → length v.valve ≡ 11
      → i < 11
      → sector (suc i) (set_rain f r_mm 0 v) ≡ rained f r_mm (sector (suc i) v)
  unfolding set_rain set_valve_rain_mm calc_time_by_rain_mm
  all_rained i v l h =
      sector-for_all timed 11 i (for_all (each wet) 11 v)
        (rw (length-for_all wet 11 v, l) (omega arith)) h
      ∙ ap timed (sector-for_all wet 11 i v (omega arith) h)

  one_rained :
      (i : ℕ) (v : Valves)
      → length v.valve ≡ 11
      → i < 11
      → sector (suc i) (set_rain f r_mm (suc i) v) ≡ rained f r_mm (sector (suc i) v)
  unfolding set_rain set_valve_rain_mm calc_time_by_rain_mm
  one_rained i v l h =
      let v' = each wet (suc i) v in
      rw (not_all i) (
        get_or-set_self v'.valve i _ empty_sector (rw (length-set v.valve i _, l) h)
        ∙ ap timed (get_or-set_self v.valve i _ empty_sector (omega arith)))

  others_kept :
      (k i : ℕ) (v : Valves) → k ≢ i → sector (suc i) (set_rain f r_mm (suc k) v) ≡ sector (suc i) v
  unfolding set_rain set_valve_rain_mm calc_time_by_rain_mm
  others_kept k i v n = rw (not_all k) (
      get_or-set_ne (each wet (suc k) v).valve k i _ empty_sector n
      ∙ get_or-set_ne v.valve k i _ empty_sector n)

  pub sector-set_rain :
      (id i : ℕ) (v : Valves)
      → length v.valve ≡ 11
      → i < 11
      → sector (suc i) (set_rain f r_mm id v)
        ≡ (if chosen id (suc i) then rained f r_mm (sector (suc i) v) else sector (suc i) v)
  sector-set_rain zero i v l h = all_rained i v l h
  sector-set_rain (suc k) i v l h = elim (Bool-cases (suc k == suc i)) [
    | inl e ↦ let same : k ≡ i = ground arith in rw (not_all k, e, same) (one_rained i v l h)
    | inr e ↦ rw (not_all k, e) (others_kept k i v (ground arith))
  ]

-- $80:v:NN:u:XYZ;
abbrev pub rain_command : ℕ → ℕ → ℕ → ℕ → ℕ → List ℕ
rain_command n1 n0 x y z =
    36
    ∷ 56
    ∷ 48
    ∷ 58
    ∷ 118
    ∷ 58
    ∷ (48 + n1)
    ∷ (48 + n0)
    ∷ 58
    ∷ 117
    ∷ 58
    ∷ (48 + x)
    ∷ (48 + y)
    ∷ (48 + z)
    ∷ 59
    ∷ []

module _ (b : Board) where
  open b use {World}

  abbrev answered : ℕ → Valves × World → Valves × World
  answered id r = if id == 0 then look_all b n_valves r else r
