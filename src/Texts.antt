-- ===== src/Texts.antt =====
-- The texts that the crate makes, as their UTF-8 bytes: string literals, the `{}` of a number, and what
-- `debug_struct` writes.
pub mod Display
pub mod Debug
mod Tests
use native.Mathlib.Numerals.{unary_clauses}
use Prim.Native.Char.{code}
use Prim.Native.String.{String}
use cripto_endevs_comunity.Base.{
  ℕ, zero, suc, ◌+◌, ◌-◌, ◌*◌, ◌/◌, ◌%◌, ◌^◌, ◌<◌, ◌≡◌, refl, ap, ◌∙◌, Bool, true, false, Option,
  none, some, List, [], ◌∷◌, ◌++◌, arith, ltb, ◌==◌, ==_refl, if◌then◌else◌, codes, Bool-cases, inl,
  inr, length,
}

-- The bytes of a character.
abbrev utf8_char : ℕ → List ℕ
utf8_char c =
    if ltb c 128
    then c ∷ []
    else if ltb c 2048
    then (192 + c / 64) ∷ (128 + c % 64) ∷ []
    else if ltb c 65536
    then (224 + c / 4096) ∷ (128 + c / 64 % 64) ∷ (128 + c % 64) ∷ []
    else (240 + c / 262144) ∷ (128 + c / 4096 % 64) ∷ (128 + c / 64 % 64) ∷ (128 + c % 64) ∷ []

abbrev pub utf8 : String → List ℕ
utf8 String.[] = []
utf8 (String.◌∷◌ c s) = utf8_char (code c) ++ utf8 s

-- `strip_prefix`
unfoldable pub strip_prefix : (prefix text : List ℕ) → Option (List ℕ)
strip_prefix [] text = some text
strip_prefix (p ∷ prefix) [] = none
strip_prefix (p ∷ prefix) (b ∷ text) = if p == b then strip_prefix prefix text else none

pub strip_prefix-append : (prefix text : List ℕ) → strip_prefix prefix (prefix ++ text) ≡ some text
unfolding strip_prefix
strip_prefix-append [] text = refl
strip_prefix-append (p ∷ prefix) text = rw (==_refl p) (strip_prefix-append prefix text)

-- `{}` of a number with at most `digits` digits: 20 for a `u64`, 3 for a `u8`.
unfoldable pub decimal : (digits n : ℕ) → List ℕ
decimal zero n = []
decimal (suc digits) n =
    let rest = decimal digits (n / 10) in
    if ltb n 10 then (48 + n) ∷ [] else rest ++ ((48 + n % 10) ∷ [])

-- The number that digits write, behind the one that `acc` is.
unfoldable pub of_decimal : (acc : ℕ) → List ℕ → ℕ
of_decimal acc [] = acc
of_decimal acc (b ∷ bs) = of_decimal (acc * 10 + (b - 48)) bs

of_decimal-append :
    (acc : ℕ) (xs : List ℕ) (b : ℕ)
    → of_decimal acc (xs ++ (b ∷ [])) ≡ of_decimal acc xs * 10 + (b - 48)
unfolding of_decimal
of_decimal-append acc [] b = refl
of_decimal-append acc (x ∷ xs) b = of_decimal-append (acc * 10 + (x - 48)) xs b

-- The digits of a number write it.
pub of_decimal-decimal : (digits n : ℕ) → n < 10 ^ digits → of_decimal 0 (decimal digits n) ≡ n
unfolding of_decimal decimal
of_decimal-decimal zero n small = omega arith
of_decimal-decimal (suc digits) n small = elim (Bool-cases (ltb n 10)) [
  | inl one ↦ rw one (omega arith)
  | inr more ↦
      let bound : n < 10 ^ digits * 10 = simp unary_clauses at small in
      let fewer : n / 10 < 10 ^ digits = omega arith in
      let rest : of_decimal 0 (decimal digits (n / 10)) ≡ n / 10 =
        of_decimal-decimal digits (n / 10) fewer in
      rw more (of_decimal-append 0 (decimal digits (n / 10)) (48 + n % 10) ∙ omega (arith, rest))
]
