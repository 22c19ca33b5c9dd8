-- ===== src/Gpio/Laws.antt =====
-- Class GPIO_DRIVER: what `toggle` and the count of the interrupt service do.
use acionna.Prelude.{ℕ, ◌≡◌, ◌≤◌, ◌∙◌, arith, List, [], ◌∷◌, if◌then◌else◌, ◌==◌}
use acionna.Gpio.{
  Idf, Direction, GpioDriver, not_level, read, write, toggle, register_interrupt, disable_interrupt,
  unregister_interrupt,
}
use acionna.Gpio.Wiring.{IsPins}

-- What a driver does with the interrupt service: it registers a handler or removes it.
pub data Request : Type 0 where
  register unregister : GpioDriver → Request

module _ (idf : Idf) where
  abbrev pub serve : Request → ℕ → idf.World → ℕ × idf.World
  serve (register g) installed w = register_interrupt idf g installed w
  serve (unregister g) installed w = unregister_interrupt idf g installed w

  -- The requests from the last one on.
  abbrev pub serve_all : List Request → ℕ → idf.World → ℕ × idf.World
  serve_all [] installed w = (installed, w)
  serve_all (q ∷ qs) installed w = let r = serve_all qs installed w in serve q r.0 r.1

  serve-Few :
      (q : Request) (installed : ℕ) (w : idf.World) → installed ≤ 1 → (serve q installed w).0 ≤ 1
  unfolding register_interrupt unregister_interrupt
  serve-Few (register g) installed w h = ground arith
  serve-Few (unregister g) installed w h = ground arith

  -- The count of drivers with a handler never exceeds one, however many register.
  pub serve_all-Few :
      (qs : List Request) (installed : ℕ) (w : idf.World)
      → installed ≤ 1
      → (serve_all qs installed w).0 ≤ 1
  serve_all-Few [] installed w h = h
  serve_all-Few (q ∷ qs) installed w h =
      serve-Few q (serve_all qs installed w).0 (serve_all qs installed w).1
        (serve_all-Few qs installed w h)

  -- After any requests from the start on, removing a driver's handler never uninstalls the interrupt
  -- service: with the count at one the handler is removed and its interrupt disabled, and with the
  -- count at zero nothing happens at all, although other drivers may have registered.
  pub unregister_never_uninstalls :
      (qs : List Request) (g : GpioDriver) (w : idf.World)
      → let r = serve_all qs 0 w in
        unregister_interrupt idf g r.0 r.1 ≡ (
          0,
          if r.0 == 0
              then r.1
              else idf.gpio_intr_disable g.pin_number
                  (idf.gpio_isr_handler_remove g.pin_number r.1),
        )
  unfolding unregister_interrupt disable_interrupt
  unregister_never_uninstalls qs g w = let few = serve_all-Few qs 0 w (omega arith) in ground arith

  -- On pins that read the level set last, `toggle` after `read` inverts the level of an output. After
  -- `write`, which does not note the level, it sets the inverse of the level noted before, whatever
  -- was written.
  pub toggle-read :
      (h : IsPins idf) (g : GpioDriver) (v : ℕ) (w : idf.World)
      → h.direction g.pin_number w ≡ Direction.input_output
      → let t = toggle idf (read idf g w).0 w in
        let u = toggle idf g (write idf v g w) in
        (idf.gpio_get_level g.pin_number t.1 ≡ not_level (idf.gpio_get_level g.pin_number w))
        × (idf.gpio_get_level g.pin_number u.1 ≡ not_level g.level)
  unfolding read toggle write
  toggle-read h g v w d = (
    h.reads_back g.pin_number _ w (ground arith) d,
    h.reads_back g.pin_number (not_level g.level) _ (ground arith)
        (h.level_keeps g.pin_number g.pin_number v w ∙ d),
  )
