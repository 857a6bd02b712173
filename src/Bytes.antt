-- ===== src/Bytes.antt =====
-- Byte slices as the source reads and writes them: `u8` is a number below 256, `to_be_bytes` and
-- `from_be_bytes` are big-endian, and a slice or an index out of range panics.
pub mod BigEndian
pub mod Slices
pub mod Fields
pub mod Compare
use cripto_endevs_comunity.Base.{
  ℕ, zero, suc, ◌+◌, ◌-◌, ◌*◌, ◌/◌, ◌%◌, ◌^◌, ◌<◌, Bool, ◌&&◌, List, [], ◌∷◌, length, take, drop,
  All, ltb, leb, bit_or, bit_xor, if◌then◌else◌,
}
use cripto_endevs_comunity.Error.{Result, ok, err, panic, Error, ◌>>=◌}

abbrev pub IsByte : ℕ → Type 0
IsByte b = b < 256

abbrev pub IsBytes : List ℕ → Type 0
IsBytes bs = All IsByte bs

-- `x.to_be_bytes()` for an unsigned integer of `k` bytes.
unfoldable pub be : ℕ → ℕ → List ℕ
be zero v = []
be (suc k) v = (v / 256 ^ k % 256) ∷ be k (v % 256 ^ k)

-- `from_be_bytes`
unfoldable pub from_be : List ℕ → ℕ
from_be [] = 0
from_be (b ∷ bs) = b * 256 ^ length bs + from_be bs

-- `&bytes[lo..hi]`
unfoldable pub slice : ℕ → ℕ → List ℕ → Result (List ℕ)
slice lo hi bs = if leb lo hi && leb hi (length bs) then ok (take (hi - lo) (drop lo bs)) else panic

-- `&bytes[lo..]`
unfoldable pub slice_from : ℕ → List ℕ → Result (List ℕ)
slice_from lo bs = if leb lo (length bs) then ok (drop lo bs) else panic

-- `bytes[i]`
unfoldable pub index : ℕ → List ℕ → Result ℕ
index i [] = panic
index zero (b ∷ bs) = ok b
index (suc i) (b ∷ bs) = index i bs

-- `uN::from_be_bytes(bytes[lo..lo + k].try_into()...)`: the slice has `k` bytes, so that the
-- conversion to an array of `k` cannot fail.
unfoldable pub read_be : ℕ → ℕ → List ℕ → Result ℕ
read_be k lo bs = do s ← slice lo (lo + k) bs; ok (from_be s)

-- `u32::try_from(n).map_err(|_| e)`
unfoldable pub try_u32 : ℕ → Error → Result ℕ
try_u32 n e = if ltb n (2 ^ 32) then ok n else err e

-- `a.checked_add(b).ok_or(e)` for 64-bit operands.
unfoldable pub checked_add : ℕ → ℕ → Error → Result ℕ
checked_add a b e = if ltb (a + b) (2 ^ 64) then ok (a + b) else err e

-- `a.saturating_add(b)` for 64-bit operands.
unfoldable pub saturating_add : ℕ → ℕ → ℕ
saturating_add a b = if ltb (a + b) (2 ^ 64) then a + b else 2 ^ 64 - 1

-- `for (a, b) in xs.iter_mut().zip(ys) { *a ^= b }`: the loop ends with the shorter list.
unfoldable pub xor_bytes : List ℕ → List ℕ → List ℕ
xor_bytes [] ys = []
xor_bytes (x ∷ xs) [] = x ∷ xs
xor_bytes (x ∷ xs) (y ∷ ys) = bit_xor x y ∷ xor_bytes xs ys

-- `for (x, y) in xs.iter().zip(ys) { diff |= x ^ y }`
unfoldable pub diff_bytes : (diff : ℕ) → List ℕ → List ℕ → ℕ
diff_bytes diff [] ys = diff
diff_bytes diff (x ∷ xs) [] = diff
diff_bytes diff (x ∷ xs) (y ∷ ys) = diff_bytes (bit_or diff (bit_xor x y)) xs ys
