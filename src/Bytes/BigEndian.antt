-- ===== src/Bytes/BigEndian.antt =====
-- Big-endian numbers: lengths, ranges and round trips.
use native.Mathlib.Nat.{
  pow-suc, one-le-pow, mod-lt, div-add-mod', mod-eq_of_lt, mul-add-mod_self_right,
  div-lt_iff_lt-mul, mul_comm, mul-add-div_right, div-eq_of_lt, add-zero,
}
use cripto_endevs_comunity.Base.{
  ℕ, zero, suc, ◌+◌, ◌*◌, ◌/◌, ◌%◌, ◌^◌, ◌<◌, ◌≡◌, refl, ap, ◌∙◌, List, [], ◌∷◌, length, arith,
}
use cripto_endevs_comunity.Bytes.{IsBytes, be, from_be}

pub length-be : (k v : ℕ) → length (be k v) ≡ k
unfolding be
length-be zero v = refl
length-be (suc k) v = ap suc (length-be k (v % 256 ^ k))

pub be-IsBytes : (k v : ℕ) → IsBytes (be k v)
unfolding be
be-IsBytes zero v = tt
be-IsBytes (suc k) v = (omega arith, be-IsBytes k (v % 256 ^ k))

pow_pos : (k : ℕ) → 0 < 256 ^ k
pow_pos k = one-le-pow k 256 (omega arith)

digit_fits : (k v : ℕ) → v < 256 ^ suc k → v / 256 ^ k < 256
digit_fits k v h = (div-lt_iff_lt-mul (pow_pos k)).1 (rw mul_comm (rw (← pow-suc 256 k) h))

mod_of_digit : (b m t : ℕ) → t < m → (b * m + t) % m ≡ t
mod_of_digit b m t h = mul-add-mod_self_right b m t ∙ mod-eq_of_lt h

div_of_digit : (b m t : ℕ) → t < m → (b * m + t) / m ≡ b
div_of_digit b m t h =
    mul-add-div_right {m = m} (omega arith) b t ∙ rw (div-eq_of_lt h) (add-zero b)

-- A number that fits comes back from its bytes.
pub from_be-be : (k v : ℕ) → v < 256 ^ k → from_be (be k v) ≡ v
unfolding be from_be
from_be-be zero v h = omega arith
from_be-be (suc k) v h =
    let top : v / 256 ^ k < 256 = digit_fits k v h in
    rw (length-be k (v % 256 ^ k), from_be-be k (v % 256 ^ k) (mod-lt v (pow_pos k)))
      (rw (mod-eq_of_lt top) (div-add-mod' v (256 ^ k)))

pub from_be-lt : (bs : List ℕ) → IsBytes bs → from_be bs < 256 ^ length bs
unfolding from_be
from_be-lt [] h = omega arith
from_be-lt (b ∷ bs) h = grind (arith, pow-suc 256 (length bs), from_be-lt bs h.1)

-- Bytes come back from the number that they make.
pub be-from_be : (bs : List ℕ) → IsBytes bs → be (length bs) (from_be bs) ≡ bs
unfolding be from_be
be-from_be [] h = refl
be-from_be (b ∷ bs) h =
    let m : ℕ = 256 ^ length bs in
    let small : from_be bs < 256 ^ length bs = from_be-lt bs h.1 in
    rw
      (
        mod_of_digit b (256 ^ length bs) (from_be bs) small,
        div_of_digit b (256 ^ length bs) (from_be bs) small,
        mod-eq_of_lt h.0,
      )
      (ap (◌∷◌ b) (be-from_be bs h.1))
