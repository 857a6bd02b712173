-- ===== src/Bytes/Fields.antt =====
-- Reads in range, of a message of any origin: none panics, and the fields that stand one behind the
-- other make up the message again.
use cripto_endevs_comunity.Base.{
  ℕ, zero, suc, [], ◌∷◌, refl, ◌+◌, ◌-◌, ◌^◌, ◌≤◌, ◌<◌, ◌≡◌, ◌∙◌, subst, List, ◌++◌, arith, length,
  take, drop, length-take, length-drop, take-append-drop, drop-drop, drop_at, All-take, All-drop,
}
use cripto_endevs_comunity.Error.{ok}
use cripto_endevs_comunity.Bytes.{IsByte, IsBytes, be, from_be, slice, read_be, index}
use cripto_endevs_comunity.Bytes.BigEndian.{from_be-lt, be-from_be}
use cripto_endevs_comunity.Bytes.Slices.{slice-ok}

-- The `k` bytes at `lo`.
abbrev pub field : ℕ → ℕ → List ℕ → List ℕ
field k lo bs = take k (drop lo bs)

abbrev pub byte_at : ℕ → List ℕ → ℕ
byte_at i [] = 0
byte_at zero (b ∷ bs) = b
byte_at (suc i) (b ∷ bs) = byte_at i bs

pub length-field : (k lo : ℕ) (bs : List ℕ) → lo + k ≤ length bs → length (field k lo bs) ≡ k
length-field k lo bs h = omega (arith, length-take k (drop lo bs), length-drop lo bs)

pub field-IsBytes : (k lo : ℕ) (bs : List ℕ) → IsBytes bs → IsBytes (field k lo bs)
field-IsBytes k lo bs h = All-take IsByte k (drop lo bs) (All-drop IsByte lo bs h)

pub slice-field :
    (k lo hi : ℕ) (bs : List ℕ) → lo + k ≡ hi → hi ≤ length bs → slice lo hi bs ≡ ok (field k lo bs)
slice-field k lo hi bs e h =
    let size : hi - lo ≡ k = omega arith in slice-ok lo hi bs (omega arith) h ∙ rw size

pub read_be-field :
    (k lo : ℕ) (bs : List ℕ) → lo + k ≤ length bs → read_be k lo bs ≡ ok (from_be (field k lo bs))
unfolding read_be
read_be-field k lo bs h = rw (slice-field k lo (lo + k) bs refl h)

pub index-byte_at : (i : ℕ) (bs : List ℕ) → i < length bs → index i bs ≡ ok (byte_at i bs)
unfolding index
index-byte_at i [] h = absurd (omega arith)
index-byte_at zero (b ∷ bs) h = refl
index-byte_at (suc i) (b ∷ bs) h = index-byte_at i bs (omega arith)

pub byte_at-IsByte : (i : ℕ) (bs : List ℕ) → IsBytes bs → byte_at i bs < 256
byte_at-IsByte i [] h = omega arith
byte_at-IsByte zero (b ∷ bs) h = h.0
byte_at-IsByte (suc i) (b ∷ bs) h = byte_at-IsByte i bs h.1

-- A field and what stands behind it are what stands from its start.
pub field_join :
    (k lo next : ℕ) (bs : List ℕ) → lo + k ≡ next → field k lo bs ++ drop next bs ≡ drop lo bs
field_join k lo next bs e =
    rw (← drop_at {n = lo + k} {m = next} bs e, ← drop-drop lo k bs)
      (take-append-drop k (drop lo bs))

pub byte_join : (i : ℕ) (bs : List ℕ) → i < length bs → byte_at i bs ∷ drop (suc i) bs ≡ drop i bs
byte_join i [] h = absurd (omega arith)
byte_join zero (b ∷ bs) h = refl
byte_join (suc i) (b ∷ bs) h = byte_join i bs (omega arith)

-- A big-endian field is written as it was read.
pub be-field :
    (k lo : ℕ) (bs : List ℕ)
    → IsBytes bs
    → lo + k ≤ length bs
    → be k (from_be (field k lo bs)) ≡ field k lo bs
be-field k lo bs b h =
    let size : length (field k lo bs) ≡ k = length-field k lo bs h in
    subst (λ (n : ℕ). be n (from_be (field k lo bs)) ≡ field k lo bs) size
      (be-from_be (field k lo bs) (field-IsBytes k lo bs b))

pub field-lt :
    (k lo : ℕ) (bs : List ℕ) → IsBytes bs → lo + k ≤ length bs → from_be (field k lo bs) < 256 ^ k
field-lt k lo bs b h =
    let size : length (field k lo bs) ≡ k = length-field k lo bs h in
    subst (λ (n : ℕ). from_be (field k lo bs) < 256 ^ n) size
      (from_be-lt (field k lo bs) (field-IsBytes k lo bs b))
