-- ===== src/Base/Bits/Digit.antt =====
-- The native bit operations stand for `bitwise`, a recursion on binary digits that carries fuel.
-- Here each is one equation for its lowest digit, and equality is found digit by digit.
use Prim.Native.Nat.{
  ℕ, zero, suc, ◌+◌, ◌*◌, ◌/◌, ◌%◌, ◌≤◌, ◌<◌, min, max, digits, bitwise, bit_and, bit_or, bit_xor,
  bit_and-bitwise, bit_or-bitwise, bit_xor-bitwise, differ,
}
use mathlib.Core.Path.{◌≡◌, refl}
use native.Mathlib.Omega.{arith}

-- Any fuel that covers the first operand gives the same digits.
digits_stable :
    (low : ℕ → ℕ) (bit : ℕ → ℕ → ℕ) (j k x y : ℕ)
    → x ≤ j
    → x ≤ k
    → digits low bit j x y ≡ digits low bit k x y
digits_stable low bit zero zero x y p q = refl
digits_stable low bit zero (suc k) zero y p q = refl
digits_stable low bit zero (suc k) (suc x) y p q = absurd (omega arith)
digits_stable low bit (suc j) zero zero y p q = refl
digits_stable low bit (suc j) zero (suc x) y p q = absurd (omega arith)
digits_stable low bit (suc j) (suc k) zero y p q = refl
digits_stable low bit (suc j) (suc k) (suc x) y p q =
    rw (digits_stable low bit j k (suc x / 2) (y / 2) (omega arith) (omega arith))

bitwise_digit :
    (low : ℕ → ℕ) (bit : ℕ → ℕ → ℕ) (x y : ℕ)
    → bitwise low bit (suc x) y ≡ bitwise low bit (suc x / 2) (y / 2) * 2 + bit (suc x % 2) (y % 2)
bitwise_digit low bit x y =
    omega
      (arith, digits_stable low bit x (suc x / 2) (suc x / 2) (y / 2) (omega arith) (omega arith))

pub bit_or_digit : (x y : ℕ) → bit_or x y ≡ bit_or (x / 2) (y / 2) * 2 + max (x % 2) (y % 2)
bit_or_digit zero y = simp bit_or-bitwise (omega arith)
bit_or_digit (suc x) y = simp bit_or-bitwise (bitwise_digit (λ d. d) max x y)

pub bit_and_digit : (x y : ℕ) → bit_and x y ≡ bit_and (x / 2) (y / 2) * 2 + min (x % 2) (y % 2)
bit_and_digit zero y = simp bit_and-bitwise (omega arith)
bit_and_digit (suc x) y = simp bit_and-bitwise (bitwise_digit (λ d. 0) min x y)

-- On single digits "they differ" is the parity of the sum.
differ-eq-parity : (p q : ℕ) → p < 2 → q < 2 → differ p q ≡ (p + q) % 2
differ-eq-parity zero q hp hq = omega arith
differ-eq-parity (suc zero) zero hp hq = refl
differ-eq-parity (suc zero) (suc zero) hp hq = refl
differ-eq-parity (suc zero) (suc (suc q)) hp hq = absurd (omega arith)
differ-eq-parity (suc (suc p)) q hp hq = absurd (omega arith)

pub bit_xor_digit : (x y : ℕ) → bit_xor x y ≡ bit_xor (x / 2) (y / 2) * 2 + (x + y) % 2
bit_xor_digit zero y = simp bit_xor-bitwise (omega arith)
bit_xor_digit (suc x) y = simp bit_xor-bitwise (
    omega (
      arith,
      bitwise_digit (λ d. d) differ x y,
      differ-eq-parity (suc x % 2) (y % 2) (omega arith) (omega arith),
    ))
