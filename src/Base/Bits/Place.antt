-- ===== src/Base/Bits/Place.antt =====
-- One place of a numeral: what `1 << d`, shifts and masks do to it.
use Prim.Native.Nat.{
  ℕ, zero, suc, ◌+◌, ◌-◌, ◌*◌, ◌/◌, ◌%◌, ◌^◌, ◌≤◌, ◌<◌, max, bit_and, bit_or, bit_and-bitwise,
}
use mathlib.Core.Path.{◌≡◌, refl, ap, ◌∙◌}
use native.Mathlib.Omega.{arith}
use native.Mathlib.Nat.{
  pow-suc, one-le-pow, mul-one, mod-lt, div-add-mod, add-mul-mod_self_left, mod-eq_of_lt,
}
use cripto_endevs_comunity.Base.Tests.{◌==◌, ltb, if◌then◌else◌}
use cripto_endevs_comunity.Base.Bits.Digit.{bit_or_digit, bit_and_digit}

-- The digit of `x` at place `d`, 0 or 1.
abbrev pub bit : ℕ → ℕ → ℕ
bit x zero = x % 2
bit x (suc d) = bit (x / 2) d

pub bit-lt : (x d : ℕ) → bit x d < 2
bit-lt x zero = omega arith
bit-lt x (suc d) = bit-lt (x / 2) d

or_halves :
    (x y : ℕ) → (bit_or x y / 2 ≡ bit_or (x / 2) (y / 2)) × (bit_or x y % 2 ≡ max (x % 2) (y % 2))
or_halves x y = omega (arith, bit_or_digit x y)

pub bit-bit_or : (x y d : ℕ) → bit (bit_or x y) d ≡ max (bit x d) (bit y d)
bit-bit_or x y zero = (or_halves x y).1
bit-bit_or x y (suc d) = rw (or_halves x y).0 (bit-bit_or (x / 2) (y / 2) d)

pub bit-zero : (d : ℕ) → bit 0 d ≡ 0
bit-zero zero = refl
bit-zero (suc d) = bit-zero d

pub bit-one : (d : ℕ) → bit 1 d ≡ (if d == 0 then 1 else 0)
bit-one zero = refl
bit-one (suc d) = ground (arith, bit-zero d)

two_pow : (k : ℕ) → 2 ^ suc k ≡ 2 * 2 ^ k
two_pow k = omega (arith, pow-suc 2 k)

double : (x s : ℕ) → x * 2 ^ suc s ≡ 2 * (x * 2 ^ s)
double x s = omega (arith, ap (λ (t : ℕ). x * t) (pow-suc 2 s))

halve_shifted : (x s : ℕ) → (x * 2 ^ suc s / 2 ≡ x * 2 ^ s) × (x * 2 ^ suc s % 2 ≡ 0)
halve_shifted x s = omega (arith, double x s)

-- A left shift moves the digit up, and fills with zeros.
pub bit-shift : (x s d : ℕ) → bit (x * 2 ^ s) d ≡ (if ltb d s then 0 else bit x (d - s))
bit-shift x zero d = let e : d - 0 ≡ d = omega arith in rw (e, mul-one) (ground arith)
bit-shift x (suc s) zero = ground (arith, halve_shifted x s)
bit-shift x (suc s) (suc d) =
    let e : suc d - suc s ≡ d - s = omega arith in
    rw ((halve_shifted x s).0, e) (ground (arith, bit-shift x s d))

mod_double : (x m : ℕ) → 0 < m → x % (2 * m) ≡ 2 * (x / 2 % m) + x % 2
mod_double x m h =
    let low : ℕ = 2 * (x / 2 % m) + x % 2 in
    let small : low < 2 * m = omega (arith, mod-lt (x / 2) h) in
    let split : x ≡ low + 2 * m * (x / 2 / m) = omega (arith, div-add-mod (x / 2) m) in
    ap (λ (t : ℕ). t % (2 * m)) split
    ∙ add-mul-mod_self_left low (2 * m) (x / 2 / m)
    ∙ mod-eq_of_lt small

halve_mod : (x w : ℕ) → (x % 2 ^ suc w / 2 ≡ x / 2 % 2 ^ w) × (x % 2 ^ suc w % 2 ≡ x % 2)
halve_mod x w =
    let e : x % 2 ^ suc w ≡ 2 * (x / 2 % 2 ^ w) + x % 2 =
      rw (two_pow w) (mod_double x (2 ^ w) (one-le-pow w 2 (omega arith))) in
    omega arith

-- A remainder by `2 ^ w` clears the places from `w` on.
pub bit-mod : (x w d : ℕ) → bit (x % 2 ^ w) d ≡ (if ltb d w then bit x d else 0)
bit-mod x zero d = let e : x % 2 ^ 0 ≡ 0 = omega arith in rw (e, bit-zero d) (ground arith)
bit-mod x (suc w) zero = ground (arith, halve_mod x w)
bit-mod x (suc w) (suc d) = rw (halve_mod x w).0 (ground (arith, bit-mod (x / 2) w d))

halve_two_pow : (k : ℕ) → (2 ^ suc k / 2 ≡ 2 ^ k) × (2 ^ suc k % 2 ≡ 0)
halve_two_pow k = omega (arith, two_pow k)

pub bit-two_pow : (k d : ℕ) → bit (2 ^ k) d ≡ (if d == k then 1 else 0)
bit-two_pow zero d = bit-one d
bit-two_pow (suc k) zero = ground (arith, halve_two_pow k)
bit-two_pow (suc k) (suc d) = rw (halve_two_pow k).0 (ground (arith, bit-two_pow k d))

bit_and-zero : (x : ℕ) → bit_and x 0 ≡ 0
bit_and-zero x = below x x (omega arith)
  where
    below : (n x : ℕ) → x ≤ n → bit_and x 0 ≡ 0
    below zero zero h = bit_and-bitwise 0 0
    below zero (suc x) h = absurd (omega arith)
    below (suc n) x h = omega (arith, bit_and_digit x 0, below n (x / 2) (omega arith))

-- The test `(x & (1 << d)) != 0` reads that digit.
pub bit_and-two_pow : (x d : ℕ) → bit_and x (2 ^ d) ≡ bit x d * 2 ^ d
bit_and-two_pow x zero = omega (arith, bit_and_digit x 1, bit_and-zero (x / 2))
bit_and-two_pow x (suc d) =
    rw (bit_and_digit, (halve_two_pow d).0, bit_and-two_pow (x / 2) d)
      (omega (arith, halve_two_pow d, double (bit (x / 2) d) d))

-- A mask of `w` ones is a remainder.
pub bit_and-mask : (x w : ℕ) → bit_and x (2 ^ w - 1) ≡ x % 2 ^ w
bit_and-mask x zero = omega (arith, bit_and-zero x)
bit_and-mask x (suc w) =
    let half : (2 ^ suc w - 1) / 2 ≡ 2 ^ w - 1 =
      omega (arith, two_pow w, one-le-pow w 2 (omega arith)) in
    rw (bit_and_digit, half, bit_and-mask (x / 2) w)
      (omega (arith, two_pow w, one-le-pow w 2, halve_mod x w))
