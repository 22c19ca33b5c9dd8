-- ===== src/History.antt =====
-- The event histories of the pump and of the valves: an array of `log_n` slots, newest first. Both
-- `make_log` functions first run `for (int i = log_n - 1; i > 0; i--) a[i] = a[i - 1];` field by
-- field.
use mathlib.Core.Path.{ap₂}
use native.Mathlib.Decide.{dec_lt}
use acionna.Prelude.{
  ℕ, zero, suc, ◌<◌, ◌≡◌, refl, sym, ◌∙◌, ap, List, ◌∷◌, arith, length, get_or, set, take,
  length-set, get_or-set_self, get_or-set_ne, get_or_ext, get_or-take, length-take,
}

-- `copy old previous` is what the loop body leaves in a slot.
module _ {ℓ} {A : Type ℓ} (copy : A → A → A) (d : A) where
  unfoldable pub shift_down : ℕ → List A → List A
  shift_down zero a = a
  shift_down (suc i) a = shift_down i (set a (suc i) (copy (get_or a (suc i) d) (get_or a i d)))

  abbrev moved : ℕ → List A → List A
  moved i a = set a (suc i) (copy (get_or a (suc i) d) (get_or a i d))

  pub length-shift_down : (n : ℕ) (a : List A) → length (shift_down n a) ≡ length a
  unfolding shift_down
  length-shift_down zero a = refl
  length-shift_down (suc n) a = length-shift_down n (moved n a) ∙ length-set a (suc n) _

  -- The slots above the loop, and slot 0, keep their values.
  pub shift_down_above : (n j : ℕ) (a : List A) → n < j → get_or (shift_down n a) j d ≡ get_or a j d
  unfolding shift_down
  shift_down_above zero j a h = refl
  shift_down_above (suc n) j a h =
      shift_down_above n j (moved n a) (omega arith) ∙ get_or-set_ne a (suc n) j _ d (omega arith)

  pub shift_down_first : (n : ℕ) (a : List A) → get_or (shift_down n a) 0 d ≡ get_or a 0 d
  unfolding shift_down
  shift_down_first zero a = refl
  shift_down_first (suc n) a =
      shift_down_first n (moved n a) ∙ get_or-set_ne a (suc n) 0 _ d (omega arith)

  -- Each slot of the loop takes its copy of the slot before it.
  pub shift_down_slot :
      (n j : ℕ) (a : List A)
      → j < n
      → n < length a
      → get_or (shift_down n a) (suc j) d ≡ copy (get_or a (suc j) d) (get_or a j d)
  unfolding shift_down
  shift_down_slot zero j a h l = absurd (omega arith)
  shift_down_slot (suc n) j a h l = elim (dec_lt j n) [
    | yes p ↦
        shift_down_slot n j (moved n a) p (rw (length-set a (suc n)) (omega arith))
        ∙ ap₂ copy (get_or-set_ne a (suc n) (suc j) _ d (omega arith))
            (get_or-set_ne a (suc n) j _ d (omega arith))
    | no p ↦
        let e : j ≡ n = omega arith in
        rw e
          (shift_down_above n (suc n) (moved n a) (omega arith) ∙ get_or-set_self a (suc n) _ d l)
  ]

-- Where the body copies the whole slot, the loop followed by a write to slot 0 prepends the new
-- event and drops the oldest.
abbrev pub slot {ℓ} : {A : Type ℓ} → A → A → A
slot old previous = previous

module _ {ℓ} {A : Type ℓ} (d : A) where
  pub shift_down_prepends :
      (n : ℕ) (x : A) (a : List A)
      → length a ≡ suc n
      → set (shift_down slot d n a) 0 x ≡ x ∷ take n a
  shift_down_prepends n x a l =
      get_or_ext d (set (shift_down slot d n a) 0 x) (x ∷ take n a)
        (length-set (shift_down slot d n a) 0 x
          ∙ length-shift_down slot d n a
          ∙ l
          ∙ ap suc (sym (length-take n a (omega arith))))
        same
    where
      same :
          (i : ℕ)
          → i < length (set (shift_down slot d n a) 0 x)
          → get_or (set (shift_down slot d n a) 0 x) i d ≡ get_or (x ∷ take n a) i d
      same zero h =
          get_or-set_self (shift_down slot d n a) 0 x d
            (omega (arith, length-shift_down slot d n a))
      same (suc i) h =
          let p : i < n =
            omega (arith, length-shift_down slot d n a, length-set (shift_down slot d n a) 0 x) in
          get_or-set_ne (shift_down slot d n a) 0 (suc i) x d (omega arith)
          ∙ shift_down_slot slot d n i a p (omega arith)
          ∙ sym (get_or-take n a i d p)
