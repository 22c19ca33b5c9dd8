-- ===== src/Valves/Rain.antt =====
-- What the settings of the rain do to each sector.
use acionna.Prelude.{
  ℕ, zero, suc, ◌<◌, ◌≤◌, ◌≡◌, refl, sym, ◌∙◌, ap, arith, length, length-set, get_or-set_self,
  get_or-set_ne, Bool-cases, ◌==◌, inl, inr,
}
use acionna.Board.{Fpu}
use acionna.Valves.State.{Valves, Sector, empty_sector, sector, update_sector, for_all}
use acionna.Valves.Flow.{volume_of, time_of}

-- A sector with some mm of rain, the volume for its area and the time for its flow.
abbrev pub rained : Fpu → ℕ → Sector → Sector
rained f r_mm s =
    let volume = volume_of f r_mm s.area in
    record s { rain_mm = r_mm; volume = volume; time_elapsed_cfg = time_of f volume s.flow }

-- A change of one sector.
abbrev pub each : (Sector → Sector) → ℕ → Valves → Valves
each g id v = update_sector id (g (sector id v)) v

module _ (g : Sector → Sector) where
  pub length-for_all : (n : ℕ) (v : Valves) → length (for_all (each g) n v).valve ≡ length v.valve
  unfolding for_all
  length-for_all zero v = refl
  length-for_all (suc n) v = length-set (for_all (each g) n v).valve n _ ∙ length-for_all n v

  beyond : (n i : ℕ) (v : Valves) → n ≤ i → sector (suc i) (for_all (each g) n v) ≡ sector (suc i) v
  unfolding for_all
  beyond zero i v h = refl
  beyond (suc n) i v h =
      get_or-set_ne (for_all (each g) n v).valve n i _ empty_sector (λ e. omega arith)
      ∙ beyond n i v (omega arith)

  -- The loop changes each of its sectors once.
  pub sector-for_all :
      (n i : ℕ) (v : Valves)
      → n ≤ length v.valve
      → i < n
      → sector (suc i) (for_all (each g) n v) ≡ g (sector (suc i) v)
  unfolding for_all
  sector-for_all zero i v l h = absurd (omega arith)
  sector-for_all (suc n) i v l h =
      let v' = for_all (each g) n v in
      elim (Bool-cases (n == i)) [
        | inl e ↦
            let same : n ≡ i = ground arith in
            ap (λ k. sector (suc k) (each g (suc n) v')) (sym same)
            ∙ get_or-set_self v'.valve n _ empty_sector (rw (length-for_all n v) (omega arith))
            ∙ ap g (beyond n n v (omega arith))
            ∙ ap (λ k. g (sector (suc k) v)) same
        | inr e ↦
            get_or-set_ne v'.valve n i _ empty_sector (ground arith)
            ∙ sector-for_all n i v (omega arith) (ground arith)
      ]
