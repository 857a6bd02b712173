-- ===== src/Bytes/Slices.antt =====
-- Reading a field of a message that was written piece by piece: a read behind the first piece is
-- a read of the rest, and a read of as many bytes as the first piece has is that piece.
use cripto_endevs_comunity.Base.{
  ℕ, [], ◌∷◌, refl, ◌+◌, ◌-◌, ◌^◌, ◌≤◌, ◌<◌, ◌≡◌, ap, ◌∙◌, List, ◌++◌, arith, length, take, drop,
  le→leb, length-append, take-append, drop-append, drop_at,
}
use cripto_endevs_comunity.Error.{ok}
use cripto_endevs_comunity.Bytes.{be, slice, slice_from, read_be}
use cripto_endevs_comunity.Bytes.BigEndian.{length-be, from_be-be}

-- In range a slice returns.
pub slice-ok :
    (lo hi : ℕ) (bs : List ℕ)
    → lo ≤ hi
    → hi ≤ length bs
    → slice lo hi bs ≡ ok (take (hi - lo) (drop lo bs))
unfolding slice
slice-ok lo hi bs p q = rw (le→leb lo hi p, le→leb hi (length bs) q)

pub slice_from-ok : (lo : ℕ) (bs : List ℕ) → lo ≤ length bs → slice_from lo bs ≡ ok (drop lo bs)
unfolding slice_from
slice_from-ok lo bs p = rw (le→leb lo (length bs) p)

-- A field behind the first piece.
pub slice_skip :
    (n lo hi : ℕ) (xs ys : List ℕ)
    → length xs ≡ n
    → n ≤ lo
    → n ≤ hi
    → slice lo hi (xs ++ ys) ≡ slice (lo - n) (hi - n) ys
unfolding slice
slice_skip n lo hi xs ys e p q =
    let there : drop lo (xs ++ ys) ≡ drop (lo - n) ys =
      drop-append xs ys lo (omega arith)
      ∙ drop_at {n = lo - length xs} {m = lo - n} ys (omega arith) in
    let size : hi - n - (lo - n) ≡ hi - lo = omega arith in
    rw (there, size) (ground (arith, length-append xs ys))

-- The first piece.
pub slice_head : (n : ℕ) (xs ys : List ℕ) → length xs ≡ n → slice 0 n (xs ++ ys) ≡ ok xs
slice_head n xs ys e =
    slice-ok 0 n (xs ++ ys) (omega arith) (omega (arith, length-append xs ys))
    ∙ ap ok (take-append xs ys (n - 0) (omega arith))

pub slice_from_skip :
    (n lo : ℕ) (xs ys : List ℕ)
    → length xs ≡ n
    → n ≤ lo
    → slice_from lo (xs ++ ys) ≡ slice_from (lo - n) ys
unfolding slice_from
slice_from_skip n lo xs ys e p =
    let there : drop lo (xs ++ ys) ≡ drop (lo - n) ys =
      drop-append xs ys lo (omega arith)
      ∙ drop_at {n = lo - length xs} {m = lo - n} ys (omega arith) in
    rw there (ground (arith, length-append xs ys))

pub slice_from-zero : (xs : List ℕ) → slice_from 0 xs ≡ ok xs
slice_from-zero xs = slice_from-ok 0 xs (omega arith)

-- A big-endian field behind the first piece, and as the first piece.
pub read_be_skip :
    (k n lo : ℕ) (xs ys : List ℕ)
    → length xs ≡ n
    → n ≤ lo
    → read_be k lo (xs ++ ys) ≡ read_be k (lo - n) ys
unfolding read_be
read_be_skip k n lo xs ys e p =
    let end : lo + k - n ≡ lo - n + k = omega arith in
    rw (slice_skip n lo (lo + k) xs ys e p (omega arith), end)

pub read_be_head : (k v : ℕ) (ys : List ℕ) → v < 256 ^ k → read_be k 0 (be k v ++ ys) ≡ ok v
unfolding read_be
read_be_head k v ys h =
    let end : 0 + k ≡ k = omega arith in
    rw (end, slice_head k (be k v) ys (length-be k v), from_be-be k v h)

-- Pieces written one behind the other, before the rest of a message.
abbrev pub flat : List (List ℕ) → List ℕ → List ℕ
flat [] rest = rest
flat (piece ∷ pieces) rest = piece ++ flat pieces rest

abbrev pub total : List (List ℕ) → ℕ
total [] = 0
total (piece ∷ pieces) = length piece + total pieces

slice_behind :
    (pieces : List (List ℕ)) (lo hi : ℕ) (rest : List ℕ)
    → total pieces ≤ lo
    → lo ≤ hi
    → slice lo hi (flat pieces rest) ≡ slice (lo - total pieces) (hi - total pieces) rest
slice_behind [] lo hi rest p q =
    let e : lo - 0 ≡ lo = omega arith in let e' : hi - 0 ≡ hi = omega arith in rw (e, e')
slice_behind (x ∷ xs) lo hi rest p q =
    let e : lo - length x - total xs ≡ lo - (length x + total xs) = omega arith in
    let e' : hi - length x - total xs ≡ hi - (length x + total xs) = omega arith in
    slice_skip (length x) lo hi x (flat xs rest) refl (omega arith) (omega arith)
    ∙ slice_behind xs (lo - length x) (hi - length x) rest (omega arith) (omega arith)
    ∙ rw (e, e')

-- A field behind some pieces: bytes, all the rest, and a big-endian number.
pub slice_at :
    (pieces : List (List ℕ)) (lo hi : ℕ) (field rest : List ℕ)
    → total pieces ≡ lo
    → lo + length field ≡ hi
    → slice lo hi (flat pieces (field ++ rest)) ≡ ok field
slice_at pieces lo hi field rest p q =
    let e : lo - total pieces ≡ 0 = omega arith in
    slice_behind pieces lo hi (field ++ rest) (omega arith) (omega arith)
    ∙ rw e (slice_head (hi - total pieces) field rest (omega arith))

pub slice_from_at :
    (pieces : List (List ℕ)) (lo : ℕ) (rest : List ℕ)
    → total pieces ≡ lo
    → slice_from lo (flat pieces rest) ≡ ok rest
slice_from_at [] lo rest p = let e : lo ≡ 0 = omega arith in rw e (slice_from-zero rest)
slice_from_at (x ∷ xs) lo rest p =
    slice_from_skip (length x) lo x (flat xs rest) refl (omega arith)
    ∙ slice_from_at xs (lo - length x) rest (omega arith)

pub read_be_at :
    (pieces : List (List ℕ)) (k lo v : ℕ) (rest : List ℕ)
    → total pieces ≡ lo
    → v < 256 ^ k
    → read_be k lo (flat pieces (be k v ++ rest)) ≡ ok v
unfolding read_be
read_be_at pieces k lo v rest p fits =
    rw
      (
        slice_at pieces lo (lo + k) (be k v) rest p (omega (arith, length-be k v)),
        from_be-be k v fits,
      )
      refl

pub length-flat :
    (pieces : List (List ℕ)) (rest : List ℕ)
    → length (flat pieces rest) ≡ total pieces + length rest
length-flat [] rest = omega arith
length-flat (x ∷ xs) rest = omega (arith, length-append x (flat xs rest), length-flat xs rest)
