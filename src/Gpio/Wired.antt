-- ===== src/Gpio/Wired.antt =====
-- The board of the controller, built from pins, the wait and the I2C lines; it keeps what `Board`
-- asks for.
use acionna.Prelude.{ℕ, ◌∙◌, ap, not, ◌&&◌, ◌==◌, ltb, List}
use acionna.Board.{Board, IsLatched, IsWired}
use acionna.Gpio.{Idf, read}
use acionna.Gpio.Wiring.{
  load_pin, ac_load, gpio_generic, IsPins, Lines, KeepsPin, IsLines, load_pin-ne, seen, seen-same,
  seen-level_of, Chip, written, written-IsConfigured, written_back, written_apart,
  keeps-IsConfigured,
}

module _ {idf : Idf} (h : IsPins idf) (lines : Lines (idf.World)) (k : IsLines h lines) where
  pub transmit_keeps_loads :
      (addr : ℕ) (bytes : List ℕ) (w : idf.World) (j : ℕ)
      → KeepsPin h (load_pin j) w (lines.transmit addr bytes w)
  transmit_keeps_loads addr bytes w j =
      k.transmit_keeps (load_pin j) addr bytes w (load_pin-ne j).0 (load_pin-ne j).1

  pub receive_keeps_loads :
      (addr len : ℕ) (w : idf.World) (j : ℕ)
      → KeepsPin h (load_pin j) w (lines.receive addr len w).1
  receive_keeps_loads addr len w j =
      k.receive_keeps (load_pin j) addr len w (load_pin-ne j).0 (load_pin-ne j).1

  pub exchange_keeps_loads :
      (addr : ℕ) (bytes : List ℕ) (len : ℕ) (w : idf.World) (j : ℕ)
      → KeepsPin h (load_pin j) w (lines.transmit_receive addr bytes len w).1
  exchange_keeps_loads addr bytes len w j =
      k.transmit_receive_keeps (load_pin j) addr bytes len w (load_pin-ne j).0 (load_pin-ne j).1

  pub probe_keeps_loads :
      (addr : ℕ) (w : idf.World) (j : ℕ) → KeepsPin h (load_pin j) w (lines.probe addr w).1
  probe_keeps_loads addr w j = k.probe_keeps (load_pin j) addr w (load_pin-ne j).0 (load_pin-ne j).1

  abbrev pub board_of : Board
  board_of = record {
    fpu = lines.fpu;
    World = Chip h;
    load_level = λ i w. ltb i 3 && not ((read idf (ac_load i) (w.0)).1 == 0);
    load_write = λ i v w. (written h i v (w.0), written-IsConfigured h i v (w.0) (w.1));
    input_level = λ i w. not ((read idf (gpio_generic i) (w.0)).1 == 0);
    delay_us = λ t w. (
      lines.delay_us t (w.0),
      keeps-IsConfigured h (w.0) _ (λ j q. k.delay_keeps (load_pin j) t (w.0) (w.1 j q)) (w.1),
    );
    transmit = λ addr bytes w. (
      lines.transmit addr bytes (w.0),
      keeps-IsConfigured h (w.0) _ (λ j q. transmit_keeps_loads addr bytes (w.0) j) (w.1),
    );
    receive = λ addr len w.
        let r = lines.receive addr len (w.0) in
        (
          r.0,
          (r.1, keeps-IsConfigured h (w.0) _ (λ j q. receive_keeps_loads addr len (w.0) j) (w.1)),
        );
    transmit_receive = λ addr bytes len w.
        let r = lines.transmit_receive addr bytes len (w.0) in
        (
          r.0,
          (
            r.1,
            keeps-IsConfigured h (w.0) _ (λ j q. exchange_keeps_loads addr bytes len (w.0) j) (w.1),
          ),
        );
    probe = λ addr w.
        let r = lines.probe addr (w.0) in
        (r.0, (r.1, keeps-IsConfigured h (w.0) _ (λ j q. probe_keeps_loads addr (w.0) j) (w.1)));
  }

  pub board_of-IsLatched : IsLatched board_of
  unfolding read
  board_of-IsLatched = record {
    reads_back = λ i v w q. ap (seen i) (written_back h i v (w.0) q (w.1)) ∙ seen-level_of i v q;
    apart = λ i j v w n. seen-same j _ _ (λ q. written_apart h i j v (w.0) n q);
    keeps = λ i t w. seen-same i _ _ (λ q. (k.delay_keeps (load_pin i) t (w.0) (w.1 i q)).1);
  }

  pub board_of-IsWired : IsWired board_of
  unfolding read
  board_of-IsWired = record {
    transmit_keeps = λ i addr bytes w. ap (seen i) (transmit_keeps_loads addr bytes (w.0) i).1;
    receive_keeps = λ i addr len w. ap (seen i) (receive_keeps_loads addr len (w.0) i).1;
    transmit_receive_keeps =
        λ i addr bytes len w. ap (seen i) (exchange_keeps_loads addr bytes len (w.0) i).1;
    probe_keeps = λ i addr w. ap (seen i) (probe_keeps_loads addr (w.0) i).1;
  }
