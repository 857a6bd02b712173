-- ===== src/Base/Bits/Laws.antt =====
-- The algebra of `^` and `|` that the constant-time comparisons and the multiset hash rest on.
use Prim.Native.Nat.{
  ℕ, zero, suc, ◌+◌, ◌*◌, ◌/◌, ◌%◌, ◌^◌, ◌≤◌, ◌<◌, max, bit_or, bit_xor, bit_xor-bitwise,
}
use mathlib.Core.Path.{◌≡◌, refl}
use mathlib.Core.Logic.{◌↔◌}
use native.Mathlib.Omega.{arith}
use native.Mathlib.Nat.{pow-suc}
use cripto_endevs_comunity.Base.Bits.Digit.{bit_or_digit, bit_xor_digit}

-- The first argument bounds the operands: every digit halves it.
xor_comm_below : (n x y : ℕ) → x ≤ n → y ≤ n → bit_xor x y ≡ bit_xor y x
xor_comm_below zero zero zero p q = refl
xor_comm_below zero zero (suc y) p q = absurd (omega arith)
xor_comm_below zero (suc x) y p q = absurd (omega arith)
xor_comm_below (suc n) x y p q = omega (
  arith,
  bit_xor_digit x y,
  bit_xor_digit y x,
  xor_comm_below n (x / 2) (y / 2) (omega arith) (omega arith),
)

pub bit_xor_comm : (x y : ℕ) → bit_xor x y ≡ bit_xor y x
bit_xor_comm x y = xor_comm_below (max x y) x y (omega arith) (omega arith)

xor_halves :
    (x y : ℕ) → (bit_xor x y / 2 ≡ bit_xor (x / 2) (y / 2)) × (bit_xor x y % 2 ≡ (x + y) % 2)
xor_halves x y = omega (arith, bit_xor_digit x y)

xor_assoc_below :
    (n x y z : ℕ) → x ≤ n → y ≤ n → z ≤ n → bit_xor (bit_xor x y) z ≡ bit_xor x (bit_xor y z)
xor_assoc_below zero zero zero zero p q r = refl
xor_assoc_below zero zero zero (suc z) p q r = absurd (omega arith)
xor_assoc_below zero zero (suc y) z p q r = absurd (omega arith)
xor_assoc_below zero (suc x) y z p q r = absurd (omega arith)
xor_assoc_below (suc n) x y z p q r =
    let left = bit_xor_digit (bit_xor x y) z in
    let right = bit_xor_digit x (bit_xor y z) in
    let ih = xor_assoc_below n (x / 2) (y / 2) (z / 2) (omega arith) (omega arith) (omega arith) in
    let xy = xor_halves x y in
    let yz = xor_halves y z in
    let left' : bit_xor (bit_xor x y) z
        ≡ bit_xor (bit_xor (x / 2) (y / 2)) (z / 2) * 2 + (bit_xor x y + z) % 2 =
      rw xy.0 at left in
    let right' : bit_xor x (bit_xor y z)
        ≡ bit_xor (x / 2) (bit_xor (y / 2) (z / 2)) * 2 + (x + bit_xor y z) % 2 =
      rw yz.0 at right in
    omega arith

pub bit_xor_assoc : (x y z : ℕ) → bit_xor (bit_xor x y) z ≡ bit_xor x (bit_xor y z)
bit_xor_assoc x y z =
    xor_assoc_below (max x (max y z)) x y z (omega arith) (omega arith) (omega arith)

xor_zero_below : (n x y : ℕ) → x ≤ n → y ≤ n → (bit_xor x y ≡ 0) ↔ (x ≡ y)
xor_zero_below zero zero zero p q = (λ _. refl, λ _. refl)
xor_zero_below zero zero (suc y) p q = absurd (omega arith)
xor_zero_below zero (suc x) y p q = absurd (omega arith)
xor_zero_below (suc n) x y p q =
    ground (arith, bit_xor_digit x y, xor_zero_below n (x / 2) (y / 2) (omega arith) (omega arith))

-- `a ^ b` is zero exactly for equal operands.
pub bit_xor-zero_iff : (x y : ℕ) → (bit_xor x y ≡ 0) ↔ (x ≡ y)
bit_xor-zero_iff x y = xor_zero_below (max x y) x y (omega arith) (omega arith)

or_zero_below : (n x y : ℕ) → x ≤ n → y ≤ n → bit_or x y ≡ 0 → (x ≡ 0) × (y ≡ 0)
or_zero_below zero x y p q h = omega arith
or_zero_below (suc n) x y p q h =
    ground (arith, bit_or_digit x y, or_zero_below n (x / 2) (y / 2) (omega arith) (omega arith))

-- `a | b` is zero only if both operands are.
pub bit_or-zero : (x y : ℕ) → bit_or x y ≡ 0 → (x ≡ 0) × (y ≡ 0)
bit_or-zero x y = or_zero_below (max x y) x y (omega arith) (omega arith)

-- Neither operation leaves the width of its operands.
pub bit_xor-lt : (k x y : ℕ) → x < 2 ^ k → y < 2 ^ k → bit_xor x y < 2 ^ k
bit_xor-lt zero x y p q = ground (arith, bit_xor-zero_iff x y)
bit_xor-lt (suc k) x y p q = omega (
  arith,
  pow-suc 2 k,
  bit_xor_digit x y,
  bit_xor-lt k (x / 2) (y / 2) (omega (arith, pow-suc 2 k)) (omega (arith, pow-suc 2 k)),
)

pub bit_or-lt : (k x y : ℕ) → x < 2 ^ k → y < 2 ^ k → bit_or x y < 2 ^ k
bit_or-lt zero x y p q =
    let e : x ≡ 0 = omega arith in let e' : y ≡ 0 = omega arith in rw (e, e') (omega arith)
bit_or-lt (suc k) x y p q = omega (
  arith,
  pow-suc 2 k,
  bit_or_digit x y,
  bit_or-lt k (x / 2) (y / 2) (omega (arith, pow-suc 2 k)) (omega (arith, pow-suc 2 k)),
)

-- Zero is neutral, so a value xored twice with the same mask comes back.
pub bit_xor-zero : (x : ℕ) → bit_xor 0 x ≡ x
bit_xor-zero x = bit_xor-bitwise 0 x

pub bit_xor_cancel : (x y : ℕ) → bit_xor x (bit_xor x y) ≡ y
bit_xor_cancel x y = rw (← bit_xor_assoc x x y, (bit_xor-zero_iff x x).1 refl) (bit_xor-zero y)
