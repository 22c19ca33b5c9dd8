-- ===== src/Pump/Frame.antt =====
-- The fields that the loops of Pump leave alone: all but the copies of pins and contactors.
use acionna.Prelude.{
  ℕ, zero, suc, ◌+◌, ◌≡◌, refl, ◌∙◌, ap, Bool, true, false, ltb, if◌then◌else◌, arith,
}
use acionna.Types.{off, StopTypes}
use acionna.Board.{Board}
use acionna.Pump.State.{Pump, wait_limit, update_switches}
use acionna.Pump.Stop.{
  Release, any_on, release, release_round, make_log_stop, all_off, stop, update_state,
}
use acionna.Pump.Start.{Waited, wait_while}

-- A pump without its copies.
abbrev pub erase : Pump → Pump
erase p = record p {
  state_k1 = off;
  state_k2 = off;
  state_k3 = off;
  state_k1_pin = off;
  state_k2_pin = off;
  state_k3_pin = off;
  state_k1_dev = off;
  state_k2_dev = off;
  state_k3_dev = off;
  state_rth = off;
}

-- A value behind one or two tests, where each branch satisfies a property.
branches {ℓ κ} :
    {A : Type ℓ} (P : A → Type κ) (t u : Bool) (x y z : A)
    → P x
    → P y
    → P z
    → P (if t then if u then x else y else z)
branches P true true x y z a b c = a
branches P true false x y z a b c = b
branches P false u x y z a b c = c

module _ (b : Board) where
  open b use {World, delay_us}

  pub erase-update_switches : (p : Pump) (w : World) → erase (update_switches b p w) ≡ erase p
  unfolding update_switches
  erase-update_switches p w = refl

  pub erase-wait_while :
      (test : Pump → Bool) (limit f i : ℕ) (p : Pump) (w : World)
      → erase (wait_while b test limit f i p w).pump ≡ erase p
  unfolding wait_while
  erase-wait_while test limit zero i p w = refl
  erase-wait_while test limit (suc f) i p w =
      let w' = delay_us 1 w in
      let p' = update_switches b p w' in
      branches {A = Waited World} (λ r. erase r.pump ≡ erase p) (test p) (ltb limit (i + 1)) _ _ _
        (erase-update_switches p w')
        (erase-wait_while test limit f (i + 1) p' w' ∙ erase-update_switches p w') refl

  pub erase-release :
      (limit f : ℕ) (r : Release World) → erase (release b limit f r).pump ≡ erase r.pump
  unfolding release
  erase-release limit zero r = refl
  erase-release limit (suc f) r =
      branches {A = Release World} (λ s. erase s.pump ≡ erase r.pump) (any_on r.pump)
        (ltb limit (r.k + 1)) _ _ _ (erase-update_switches r.pump r.world)
        (erase-release limit f (release_round b r) ∙ erase-update_switches r.pump r.world) refl

  -- `stop` sets the fields that it names, and its log slot.
  pub stop_keeps :
      (reason : StopTypes) (now : ℕ) (p : Pump) (w : World)
      → let q = (stop b reason now p w).0 in
        (q.state_motor ≡ p.state_motor)
        × (q.start_y_delta_state ≡ p.start_y_delta_state)
        × (q.log_motors ≡ (make_log_stop reason p.time_on p).log_motors)
        × (q.time_wait_power_on_config ≡ p.time_wait_power_on_config)
        × (q.time_to_shutdown_config ≡ p.time_to_shutdown_config)
        × (q.time_to_shutdown ≡ p.time_to_shutdown)
        × (q.time_on ≡ p.time_on)
        × (q.time_delta_to_y_switch ≡ p.time_delta_to_y_switch)
        × (q.time_wait_power_on ≡ p.time_wait_power_on_config)
  unfolding stop make_log_stop
  stop_keeps reason now p w =
      let p0 = make_log_stop reason p.time_on p in
      let r0 : Release World = record {
        k = 0;
        k1 = 0;
        k2 = 0;
        k3 = 0;
        pump = p0;
        world = all_off b w;
      } in
      let e = erase-release (wait_limit p0) (suc (wait_limit p0)) r0 in
      (
        ap (λ (x : Pump). x.state_motor) e,
        ap (λ (x : Pump). x.start_y_delta_state) e,
        ap (λ (x : Pump). x.log_motors) e,
        ap (λ (x : Pump). x.time_wait_power_on_config) e,
        ap (λ (x : Pump). x.time_to_shutdown_config) e,
        ap (λ (x : Pump). x.time_to_shutdown) e,
        ap (λ (x : Pump). x.time_on) e,
        ap (λ (x : Pump). x.time_delta_to_y_switch) e,
        ap (λ (x : Pump). x.time_wait_power_on_config) e,
      )

  -- `update_state_` keeps what its `stop` keeps, whichever branch it takes.
  pub update_state_keeps :
      (now : ℕ) (p : Pump) (w : World)
      → let q = (update_state b now p w).0 in
        (q.start_y_delta_state ≡ p.start_y_delta_state)
        × (q.time_delta_to_y_switch ≡ p.time_delta_to_y_switch)
        × (q.time_to_shutdown ≡ p.time_to_shutdown)
        × (q.time_to_shutdown_config ≡ p.time_to_shutdown_config)
        × (q.time_on ≡ p.time_on)
  unfolding update_state update_switches
  update_state_keeps now p w =
      ground (arith, stop_keeps StopTypes.contactor_not_on now (update_switches b p w) w)
