-- ===== src/Prelude/Words.antt =====
-- Machine integers as native numbers: `u32` and `u64` values with their bounds, and the 16-bit
-- halves of a `u32`.
use Prim.Native.Nat.{ℕ, ◌*◌, ◌/◌, ◌%◌, ◌^◌, ◌<◌}

-- `u32::MAX` and `u64::MAX`
abbrev pub u32_max : ℕ
u32_max = 0xffff_ffff

abbrev pub IsByte : ℕ → Type 0
IsByte b = b < 256

abbrev pub IsU32 : ℕ → Type 0
IsU32 v = v < 2 ^ 32

abbrev pub IsU64 : ℕ → Type 0
IsU64 v = v < 2 ^ 64

-- `x & 0xffff`
abbrev pub low_half : ℕ → ℕ
low_half x = x % 2 ^ 16

-- `x & 0xffff0000`, for a `u32`
abbrev pub high_half : ℕ → ℕ
high_half x = x / 2 ^ 16 % 2 ^ 16 * 2 ^ 16
