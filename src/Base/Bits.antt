-- ===== src/Base/Bits.antt =====
-- A mask bounds a bitwise conjunction.
use Prim.Native.Nat.{ℕ, zero, suc, ◌/◌, ◌≤◌, min, bit_and, digits, bit_and-bitwise}
use native.Mathlib.Omega.{arith}

digits-and-le : (n a b : ℕ) → digits (λ b. zero) min n a b ≤ b
digits-and-le zero a b = omega arith
digits-and-le (suc n) zero b = omega arith
digits-and-le (suc n) (suc a) b = omega (arith, digits-and-le n (suc a / 2) (b / 2))

pub bit_and-le : (a b : ℕ) → bit_and a b ≤ b
bit_and-le a b = omega (arith, bit_and-bitwise a b, digits-and-le a a b)
