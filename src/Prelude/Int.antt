-- ===== src/Prelude/Int.antt =====
-- The values of a C `int`: `negsuc n` is -(n + 1).
use Prim.Native.Nat.{ℕ, ◌%◌, ◌-◌}

pub data ℤ : Type 0 where
  pos : ℕ → ℤ
  negsuc : ℕ → ℤ

-- A value stored in, or converted to, a `uint8_t`.
abbrev pub to_u8 : ℤ → ℕ
to_u8 (pos n) = n % 256
to_u8 (negsuc n) = 255 - n % 256
