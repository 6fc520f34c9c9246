-- ===== src/Base/Words.antt =====
-- Machine words: the sizes of the integer types, and subtraction that wraps as unsigned types do.
use Prim.Native.Nat.{ℕ, ◌+◌, ◌-◌, ◌%◌, ◌≤◌, ◌<◌}
use mathlib.Core.Path.{◌≡◌}
use native.Mathlib.Omega.{arith}

-- 2 ^ 64, the range of `size_t`.
abbrev pub size_mod : ℕ
size_mod = 18446744073709551616

-- 2 ^ 32, the range of `uint32_t`, and of `int32_t` read as a bit pattern.
abbrev pub u32_mod : ℕ
u32_mod = 4294967296

-- 2 ^ 16, the range of `uint16_t`.
abbrev pub u16_mod : ℕ
u16_mod = 65536

-- `a - b` on `size_t`.
abbrev pub sub_size : ℕ → ℕ → ℕ
sub_size a b = (a + size_mod - b) % size_mod

-- `a - b` on `uint32_t`.
abbrev pub sub_u32 : ℕ → ℕ → ℕ
sub_u32 a b = (a + u32_mod - b) % u32_mod

pub sub_size_exact : (a b : ℕ) → b ≤ a → a < size_mod → sub_size a b ≡ a - b
sub_size_exact a b h k = omega arith
