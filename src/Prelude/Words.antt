-- ===== src/Prelude/Words.antt =====
-- Machine integers as native numbers: the widths, wrapping and saturating arithmetic.
use Prim.Native.Nat.{ℕ, ◌+◌, ◌-◌, ◌*◌, ◌/◌, ◌%◌, ◌^◌, min}

abbrev pub u8_max : ℕ
u8_max = 2 ^ 8 - 1

abbrev pub u16_max : ℕ
u16_max = 2 ^ 16 - 1

abbrev pub u32_max : ℕ
u32_max = 2 ^ 32 - 1

abbrev pub u64_max : ℕ
u64_max = 2 ^ 64 - 1

-- The casts `as u8`, `as u16`, `as u32` and `as u64`.
abbrev pub u8 : ℕ → ℕ
u8 n = n % 2 ^ 8

abbrev pub u16 : ℕ → ℕ
u16 n = n % 2 ^ 16

abbrev pub u32 : ℕ → ℕ
u32 n = n % 2 ^ 32

abbrev pub u64 : ℕ → ℕ
u64 n = n % 2 ^ 64

-- `u32::wrapping_add` and `u32::wrapping_sub`.
abbrev pub wrapping_add : ℕ → ℕ → ℕ
wrapping_add a b = (a + b) % 2 ^ 32

abbrev pub wrapping_sub : ℕ → ℕ → ℕ
wrapping_sub a b = (a + 2 ^ 32 - b) % 2 ^ 32

-- `u32::saturating_add`, and the same on `u64` with `saturating_mul`; `saturating_sub` is `-`.
abbrev pub saturating_add : ℕ → ℕ → ℕ
saturating_add a b = min (a + b) u32_max

abbrev pub saturating_add_u64 : ℕ → ℕ → ℕ
saturating_add_u64 a b = min (a + b) u64_max

abbrev pub saturating_mul_u64 : ℕ → ℕ → ℕ
saturating_mul_u64 a b = min (a * b) u64_max

-- `u32::div_ceil`
abbrev pub div_ceil : ℕ → ℕ → ℕ
div_ceil a b = (a + (b - 1)) / b

-- `x >> k`, and `x & (2 ^ k - 1)`.
abbrev pub shr : ℕ → ℕ → ℕ
shr x k = x / 2 ^ k

abbrev pub low_bits : ℕ → ℕ → ℕ
low_bits x k = x % 2 ^ k

-- `u16::from_be_bytes` and `u32::from_be_bytes`
abbrev pub be_u16 : ℕ → ℕ → ℕ
be_u16 a b = a * 256 + b

abbrev pub be_u32 : ℕ → ℕ → ℕ → ℕ → ℕ
be_u32 a b c d = a * 16_777_216 + b * 65_536 + c * 256 + d
