-- ===== src/Base/Int.antt =====
-- Signed values: the integer that a machine word of two's complement stands for.
use Prim.Native.Nat.{ℕ, ◌-◌, ◌%◌}
use enocean_core.Base.Tests.{ltb, leb, if◌then◌else◌}

-- `negsuc n` is -(n + 1).
pub data ℤ : Type 0 where
  pos : ℕ → ℤ
  negsuc : ℕ → ℤ

-- a - b, as an integer.
abbrev pub sub_ℕ : ℕ → ℕ → ℤ
sub_ℕ a b = if leb b a then pos (a - b) else negsuc (b - a - 1)

-- `static_cast<std::int16_t>` of an unsigned value.
abbrev pub int16 : ℕ → ℤ
int16 x = if ltb (x % 65536) 32768 then pos (x % 65536) else negsuc (65536 - x % 65536 - 1)

-- `static_cast<std::int8_t>` of a byte.
abbrev pub int8 : ℕ → ℤ
int8 x = if ltb (x % 256) 128 then pos (x % 256) else negsuc (256 - x % 256 - 1)
