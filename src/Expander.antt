-- ===== src/Expander.antt =====
-- Class pcy8575 (components/modules/pcy8575): the I2C module that drives the valves. A method takes
-- the object and the world. The transfers' status is dropped, as the source drops it; what a failed
-- read leaves in the buffer is the board's to say. The log lines are not
-- modelled.
pub mod Laws
pub mod Store
mod Tests
use acionna.Prelude.{
  ℕ, zero, suc, ◌+◌, ◌-◌, ◌*◌, ◌/◌, ◌%◌, ◌^◌, Bool, List, [], ◌∷◌, ◌==◌, if◌then◌else◌, bit_and,
  bit_or, get_or, set, u8, u16, u32, replicate,
}
use acionna.Board.{Board}

pub record Expander : Type 0 where
  pub n_samples : ℕ
  pub stream_array_raw : List ℕ
  pub output : ℕ

abbrev pub max_samples : ℕ
max_samples = 397

-- The members' initial values; the sample array's are not set by the source.
abbrev pub new : Expander
new = record { n_samples = max_samples; stream_array_raw = replicate max_samples 0; output = 0 }

abbrev pub addr : ℕ
addr = 0x53

-- The opcodes that the methods send.
abbrev pub reg_soft_reset : ℕ
reg_soft_reset = 0x01

abbrev pub reg_put : ℕ
reg_put = 0x03

abbrev pub reg_get : ℕ
reg_get = 0x04

abbrev pub reg_temperature : ℕ
reg_temperature = 0x05

abbrev pub reg_uptime : ℕ
reg_uptime = 0x06

abbrev pub reg_i_process : ℕ
reg_i_process = 0x08

abbrev pub reg_irms : ℕ
reg_irms = 0x09

abbrev pub reg_i_data : ℕ
reg_i_data = 0x0a

abbrev pub reg_test : ℕ
reg_test = 0x0b

abbrev pub reg_i_set_np : ℕ
reg_i_set_np = 0x0c

abbrev pub reg_i_get_np : ℕ
reg_i_get_np = 0x0d

-- (data[i + 1] << 8) | data[i], as uint16_t.
abbrev pub word_at : List ℕ → ℕ → ℕ
word_at bytes i = u16 (bit_or (get_or bytes (i + 1) 0 * 2 ^ 8) (get_or bytes i 0))

-- The two bytes of a word.
abbrev pub low_byte : ℕ → ℕ
low_byte word = u8 (bit_and word 0x00ff)

abbrev pub high_byte : ℕ → ℕ
high_byte word = u8 (bit_and (word / 2 ^ 8) 0x00ff)

module _ (b : Board) where
  open b use {World, transmit, receive, transmit_receive, delay_us}

  abbrev pub delay_cmd : World → World
  delay_cmd w = delay_us 10000 w

  -- Sends a command and reads the answer after 10 ms.
  abbrev pub ask : ℕ → ℕ → World → List ℕ × World
  ask reg len w = receive addr len (delay_cmd (transmit addr (reg ∷ []) w))

  -- `probe()`
  unfoldable pub probe : World → Bool × World
  probe w = b.probe addr w

  unfoldable pub soft_reset : World → World
  soft_reset w = transmit addr (reg_soft_reset ∷ 0 ∷ []) w

  unfoldable pub put : ℕ → Expander → World → Expander × World
  put word x w =
      (record x { output = word }, transmit addr (reg_put ∷ low_byte word ∷ high_byte word ∷ []) w)

  -- `write(pin, level)`: pin 0 stands for all.
  unfoldable pub write : ℕ → ℕ → Expander → World → Expander × World
  unfolding put
  write pin level x w =
      let all = if level == 0 then 0x0000 else 0xffff in
      let cleared = u16 (bit_and x.output (2 ^ 32 - 1 - 2 ^ (pin - 1))) in
      let raised = u16 (bit_or x.output (2 ^ (pin - 1))) in
      put (if pin == 0 then all else if level == 0 then cleared else raised) x w

  unfoldable pub get : Expander → World → Expander × World
  get x w = let (bytes, w') = ask reg_get 2 w in (record x { output = word_at bytes 0 }, w')

  -- `(output_ >> (pin - 1)) & 1` of the word just read.
  unfoldable pub read : ℕ → Expander → World → ℕ × Expander × World
  unfolding get
  read pin x w = let (y, w') = get x w in (bit_and (y.output / 2 ^ (pin - 1)) 1, y, w')

  unfoldable pub get1 : World → World
  get1 w = transmit addr (reg_get ∷ []) w

  unfoldable pub get2 : Expander → World → Expander × World
  get2 x w = let (bytes, w') = receive addr 2 w in (record x { output = word_at bytes 0 }, w')

  unfoldable pub temperature : World → ℕ × World
  temperature w = let (bytes, w') = ask reg_temperature 2 w in (word_at bytes 0, w')

  unfoldable pub uptime : World → ℕ × World
  uptime w =
      let (bytes, w') = ask reg_uptime 4 w in
      let high = bit_or (get_or bytes 3 0 * 2 ^ 24) (get_or bytes 2 0 * 2 ^ 16) in
      (u32 (bit_or (bit_or high (get_or bytes 1 0 * 2 ^ 8)) (get_or bytes 0 0)), w')

  unfoldable pub i_process : ℕ → World → World
  i_process mode w = transmit addr (reg_i_process ∷ u8 mode ∷ []) w

  unfoldable pub irms : World → ℕ × World
  irms w = let (bytes, w') = ask reg_irms 2 w in (word_at bytes 0, w')

  -- At most `max_samples` of them: $86:d; has no result with more (Controller/Module).
  -- for(int i=0; i<n_samples; i++) stream_array_raw[i] = ...;
  unfoldable pub fill_samples : ℕ → ℕ → List ℕ → List ℕ → List ℕ
  fill_samples zero i bytes raw = raw
  fill_samples (suc n) i bytes raw =
      fill_samples n (i + 1) bytes (set raw i (word_at bytes (2 * i)))

  unfoldable pub i_data : Expander → World → Expander × World
  unfolding fill_samples
  i_data x w =
      let (bytes, w') = ask reg_i_data (x.n_samples * 2) w in
      (record x { stream_array_raw = fill_samples x.n_samples 0 bytes x.stream_array_raw }, w')

  -- The two overloads of `i_n_points`.
  unfoldable pub set_i_n_points : ℕ → World → World
  set_i_n_points length w = transmit addr (reg_i_set_np ∷ low_byte length ∷ high_byte length ∷ []) w

  unfoldable pub i_n_points : Expander → World → ℕ × Expander × World
  i_n_points x w =
      let (bytes, w') = transmit_receive addr (reg_i_get_np ∷ []) 2 w in
      let n = word_at bytes 0 in (n, record x { n_samples = n }, w')

  -- `reset_reason()`, which asks for IRMS.
  unfoldable pub reset_reason : World → ℕ × World
  reset_reason w =
      let (bytes, w') = transmit_receive addr (reg_irms ∷ []) 1 w in (get_or bytes 0 0, w')

  -- `data_test()`: the four words that it prints.
  unfoldable pub data_test : World → List ℕ × World
  data_test w =
      let (bytes, w') = transmit_receive addr (reg_test ∷ []) 8 w in
      (word_at bytes 0 ∷ word_at bytes 2 ∷ word_at bytes 4 ∷ word_at bytes 6 ∷ [], w')
