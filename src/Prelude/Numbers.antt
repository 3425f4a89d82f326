-- ===== src/Prelude/Numbers.antt =====
-- Laws of the bitwise operations on numbers.
use mathlib.Core.Path.{◌≡◌, refl, ◌∙◌}
use native.Mathlib.Omega.{arith}
use Prim.Native.Nat.{ℕ, zero, suc, ◌/◌, ◌%◌, ◌≤◌, bit_xor, digits, differ, bit_xor-bitwise}

differ_self : (a : ℕ) → differ a a ≡ 0
differ_self zero = refl
differ_self (suc a) = differ_self a

digits_self : (n a : ℕ) → a ≤ n → digits (λ b. b) differ n a a ≡ 0
digits_self zero zero h = refl
digits_self zero (suc a) h = absurd (omega arith)
digits_self (suc n) zero h = refl
digits_self (suc n) (suc a) h =
    omega (arith, digits_self n (suc a / 2) (omega arith), differ_self (suc a % 2))

-- A number exclusive-or'ed with itself.
pub bit_xor_self : (a : ℕ) → bit_xor a a ≡ 0
bit_xor_self a = bit_xor-bitwise a a ∙ digits_self a a (omega arith)
