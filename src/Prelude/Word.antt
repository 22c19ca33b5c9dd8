-- ===== src/Prelude/Word.antt =====
-- Casts to the unsigned widths. `unsigned int`, `unsigned long` and `uint32_t` have 32 bits on the
-- target.
use Prim.Native.Nat.{ℕ, ◌+◌, ◌%◌}

abbrev pub u32 : ℕ → ℕ
u32 word = word % 4294967296

abbrev pub u16 : ℕ → ℕ
u16 word = word % 65536

abbrev pub u8 : ℕ → ℕ
u8 byte = byte % 256

-- `x--` on a `uint8_t`.
abbrev pub dec8 : ℕ → ℕ
dec8 byte = (byte + 255) % 256
