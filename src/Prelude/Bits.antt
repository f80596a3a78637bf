-- ===== src/Prelude/Bits.antt =====
-- `x & m` for masks `m` of one bit, as arithmetic that `omega` reads.
use Prim.Native.Nat.{ℕ, zero, suc, ◌+◌, ◌*◌, ◌/◌, ◌%◌, ◌≤◌, min, bit_and, digits, bit_and-bitwise}
use mathlib.Core.Path.{◌≡◌, refl}
use native.Mathlib.Omega.{arith}

-- The digit recursion that the native operation stands for, on fuel `n`.
abbrev common_digits : ℕ → ℕ → ℕ → ℕ
common_digits n a b = digits (λ b. zero) min n a b

common_digits_fuel : (n m a b : ℕ) → a ≤ n → a ≤ m → common_digits n a b ≡ common_digits m a b
common_digits_fuel zero zero a b p q = refl
common_digits_fuel zero (suc m) zero b p q = refl
common_digits_fuel zero (suc m) (suc a) b p q = absurd (omega arith)
common_digits_fuel (suc n) zero zero b p q = refl
common_digits_fuel (suc n) zero (suc a) b p q = absurd (omega arith)
common_digits_fuel (suc n) (suc m) zero b p q = refl
common_digits_fuel (suc n) (suc m) (suc a) b p q =
    omega (arith, common_digits_fuel n m (suc a / 2) (b / 2) (omega arith) (omega arith))

zero_bit_and : (b : ℕ) → bit_and 0 b ≡ 0
zero_bit_and b = bit_and-bitwise 0 b

pub bit_and-halves : (a b : ℕ) → bit_and a b ≡ bit_and (a / 2) (b / 2) * 2 + min (a % 2) (b % 2)
bit_and-halves zero b = omega (arith, zero_bit_and b, zero_bit_and (b / 2))
bit_and-halves (suc a) b = omega (
  arith,
  bit_and-bitwise (suc a) b,
  bit_and-bitwise (suc a / 2) (b / 2),
  common_digits_fuel a (suc a / 2) (suc a / 2) (b / 2) (omega arith) (omega arith),
)

bit_and_none_to : (n a : ℕ) → a ≤ n → bit_and a 0 ≡ 0
bit_and_none_to n zero h = refl
bit_and_none_to zero (suc a) h = absurd (omega arith)
bit_and_none_to (suc n) (suc a) h =
    omega (arith, bit_and-halves (suc a) 0, bit_and_none_to n (suc a / 2) (omega arith))

bit_and_comm_to : (n a b : ℕ) → a ≤ n → bit_and a b ≡ bit_and b a
bit_and_comm_to n zero b h = omega (arith, zero_bit_and b, bit_and_none_to b b (omega arith))
bit_and_comm_to zero (suc a) b h = absurd (omega arith)
bit_and_comm_to (suc n) (suc a) b h = omega (
  arith,
  bit_and-halves (suc a) b,
  bit_and-halves b (suc a),
  bit_and_comm_to n (suc a / 2) (b / 2) (omega arith),
)

pub bit_and_comm : (a b : ℕ) → bit_and a b ≡ bit_and b a
bit_and_comm a b = bit_and_comm_to a a b (omega arith)

pub bit_and_1 : (a : ℕ) → bit_and a 1 ≡ a % 2
bit_and_1 a = omega (arith, bit_and-halves a 1, bit_and_none_to (a / 2) (a / 2) (omega arith))

pub bit_and_2 : (a : ℕ) → bit_and a 2 ≡ a / 2 % 2 * 2
bit_and_2 a = omega (arith, bit_and-halves a 2, bit_and_1 (a / 2))

pub bit_and_4 : (a : ℕ) → bit_and a 4 ≡ a / 4 % 2 * 4
bit_and_4 a = omega (arith, bit_and-halves a 4, bit_and_2 (a / 2))

pub bit_and_8 : (a : ℕ) → bit_and a 8 ≡ a / 8 % 2 * 8
bit_and_8 a = omega (arith, bit_and-halves a 8, bit_and_4 (a / 2))

pub bit_and_16 : (a : ℕ) → bit_and a 16 ≡ a / 16 % 2 * 16
bit_and_16 a = omega (arith, bit_and-halves a 16, bit_and_8 (a / 2))

pub bit_and_32 : (a : ℕ) → bit_and a 32 ≡ a / 32 % 2 * 32
bit_and_32 a = omega (arith, bit_and-halves a 32, bit_and_16 (a / 2))

pub bit_and_64 : (a : ℕ) → bit_and a 64 ≡ a / 64 % 2 * 64
bit_and_64 a = omega (arith, bit_and-halves a 64, bit_and_32 (a / 2))

pub bit_and_128 : (a : ℕ) → bit_and a 128 ≡ a / 128 % 2 * 128
bit_and_128 a = omega (arith, bit_and-halves a 128, bit_and_64 (a / 2))

pub bit_and_256 : (a : ℕ) → bit_and a 256 ≡ a / 256 % 2 * 256
bit_and_256 a = omega (arith, bit_and-halves a 256, bit_and_128 (a / 2))

pub bit_and_512 : (a : ℕ) → bit_and a 512 ≡ a / 512 % 2 * 512
bit_and_512 a = omega (arith, bit_and-halves a 512, bit_and_256 (a / 2))

pub bit_and_1024 : (a : ℕ) → bit_and a 1024 ≡ a / 1024 % 2 * 1024
bit_and_1024 a = omega (arith, bit_and-halves a 1024, bit_and_512 (a / 2))
