-- ===== src/Bytes/Compare.antt =====
-- Comparisons in constant time, and bytes xored together.
use cripto_endevs_comunity.Base.{
  ℕ, suc, ◌≡◌, refl, sym, ap, ap₂, ◌∙◌, List, [], ◌∷◌, length, arith, bit_or, bit_xor,
}
use cripto_endevs_comunity.Base.Bits.{bit_xor_comm, bit_xor_assoc, bit_xor-zero_iff, bit_or-zero}
use cripto_endevs_comunity.Bytes.{xor_bytes, diff_bytes}

diff_bytes_start : (d : ℕ) (xs ys : List ℕ) → diff_bytes d xs ys ≡ 0 → d ≡ 0
unfolding diff_bytes
diff_bytes_start d [] ys h = h
diff_bytes_start d (x ∷ xs) [] h = h
diff_bytes_start d (x ∷ xs) (y ∷ ys) h =
    (bit_or-zero d (bit_xor x y) (diff_bytes_start (bit_or d (bit_xor x y)) xs ys h)).0

-- The accumulated difference of two lists of one length is zero exactly if they are equal.
pub diff_bytes-zero : (xs ys : List ℕ) → length xs ≡ length ys → diff_bytes 0 xs ys ≡ 0 → xs ≡ ys
unfolding diff_bytes
diff_bytes-zero [] [] e h = refl
diff_bytes-zero [] (y ∷ ys) e h = absurd (omega arith)
diff_bytes-zero (x ∷ xs) [] e h = absurd (omega arith)
diff_bytes-zero (x ∷ xs) (y ∷ ys) e h =
    let start : bit_or 0 (bit_xor x y) ≡ 0 = diff_bytes_start (bit_or 0 (bit_xor x y)) xs ys h in
    let same : x ≡ y = (bit_xor-zero_iff x y).0 (bit_or-zero 0 (bit_xor x y) start).1 in
    let rest : diff_bytes 0 xs ys ≡ 0 = ap (λ (d : ℕ). diff_bytes d xs ys) (sym start) ∙ h in
    ap₂ ◌∷◌ same (diff_bytes-zero xs ys (omega arith) rest)

pub diff_bytes_self : (xs : List ℕ) → diff_bytes 0 xs xs ≡ 0
unfolding diff_bytes
diff_bytes_self [] = refl
diff_bytes_self (x ∷ xs) =
    let same : bit_xor x x ≡ 0 = (bit_xor-zero_iff x x).1 refl in rw same (diff_bytes_self xs)

pub length-xor_bytes : (xs ys : List ℕ) → length (xor_bytes xs ys) ≡ length xs
unfolding xor_bytes
length-xor_bytes [] ys = refl
length-xor_bytes (x ∷ xs) [] = refl
length-xor_bytes (x ∷ xs) (y ∷ ys) = ap suc (length-xor_bytes xs ys)

-- The order in which two lists are xored into a third makes no difference.
pub xor_bytes_comm :
    (acc xs ys : List ℕ) → xor_bytes (xor_bytes acc xs) ys ≡ xor_bytes (xor_bytes acc ys) xs
unfolding xor_bytes
xor_bytes_comm [] xs ys = refl
xor_bytes_comm (a ∷ acc) [] [] = refl
xor_bytes_comm (a ∷ acc) [] (y ∷ ys) = refl
xor_bytes_comm (a ∷ acc) (x ∷ xs) [] = refl
xor_bytes_comm (a ∷ acc) (x ∷ xs) (y ∷ ys) =
    ap₂ ◌∷◌ (bit_xor_assoc a x y ∙ ap (bit_xor a) (bit_xor_comm x y) ∙ sym (bit_xor_assoc a y x))
      (xor_bytes_comm acc xs ys)
