-- ===== src/Panics.antt =====
-- What nothing that another party sends makes panic: the decoders of every format, and the opening of
-- packets. A computation that does not panic is followed step by step.
mod Decoders
mod States
mod Input
pub mod Opening
mod Tests
use cripto_endevs_comunity.Base.{
  ℕ, ◌+◌, ◌≤◌, ◌<◌, ◌≡◌, ◌≢◌, refl, Bool, true, false, Option, none, some, List, length, arith,
  subst, ltb, Bool-cases, inl, inr, if◌then◌else◌, ◌^◌,
}
use cripto_endevs_comunity.Error.{Error, Result, ok, err, panic, ◌>>=◌, ◌>>◌, reject, require}
use cripto_endevs_comunity.Bytes.{slice, slice_from, index, read_be, try_u32, checked_add}
use cripto_endevs_comunity.Bytes.Slices.{slice-ok, slice_from-ok}
use cripto_endevs_comunity.Bytes.Fields.{read_be-field, index-byte_at}

pub bind-ne-panic {ℓ₁ ℓ₂} :
    {A : Type ℓ₁} {B : Type ℓ₂} (r : Result A) {next : A → Result B}
    → r ≢ panic
    → ((a : A) → r ≡ ok a → next a ≢ panic)
    → (r >>= next) ≢ panic
bind-ne-panic (ok a) safe rest = rest a refl
bind-ne-panic (err e) safe rest = λ h. cc
bind-ne-panic panic safe rest = absurd (safe refl)

pub ok-ne-panic {ℓ} : {A : Type ℓ} {a : A} → ok a ≢ panic
ok-ne-panic h = cc

pub err-ne-panic {ℓ} : {A : Type ℓ} {e : Error} → ◌≢◌ {A = Result A} (err e) panic
err-ne-panic h = cc

module _ {ℓ} {B : Type ℓ} where
  -- The steps that end in an error or go on.
  pub reject-ne-panic :
      (test : Bool) (e : Error) (rest : Result B)
      → (test ≡ false → rest ≢ panic)
      → (reject test e >> rest) ≢ panic
  reject-ne-panic true e rest safe = λ h. cc
  reject-ne-panic false e rest safe = safe refl

  pub require-ne-panic :
      (test : Bool) (e : Error) (rest : Result B)
      → (test ≡ true → rest ≢ panic)
      → (require test e >> rest) ≢ panic
  require-ne-panic true e rest safe = safe refl
  require-ne-panic false e rest safe = λ h. cc

  pub if-ne-panic :
      (test : Bool) {yes_part no_part : Result B}
      → (test ≡ true → yes_part ≢ panic)
      → (test ≡ false → no_part ≢ panic)
      → (if test then yes_part else no_part) ≢ panic
  if-ne-panic true safe other = safe refl
  if-ne-panic false safe other = other refl

  -- The steps that return a value where it is in range.
  pub slice-ne-panic :
      (lo hi : ℕ) (bs : List ℕ) {next : List ℕ → Result B}
      → lo ≤ hi
      → hi ≤ length bs
      → ((s : List ℕ) → next s ≢ panic)
      → (slice lo hi bs >>= next) ≢ panic
  slice-ne-panic lo hi bs low high rest = rw (slice-ok lo hi bs low high) (rest _)

  pub slice_from-ne-panic :
      (lo : ℕ) (bs : List ℕ) {next : List ℕ → Result B}
      → lo ≤ length bs
      → ((s : List ℕ) → next s ≢ panic)
      → (slice_from lo bs >>= next) ≢ panic
  slice_from-ne-panic lo bs low rest = rw (slice_from-ok lo bs low) (rest _)

  pub read_be-ne-panic :
      (k lo : ℕ) (bs : List ℕ) {next : ℕ → Result B}
      → lo + k ≤ length bs
      → ((n : ℕ) → next n ≢ panic)
      → (read_be k lo bs >>= next) ≢ panic
  read_be-ne-panic k lo bs high rest = rw (read_be-field k lo bs high) (rest _)

  pub index-ne-panic :
      (i : ℕ) (bs : List ℕ) {next : ℕ → Result B}
      → i < length bs
      → ((n : ℕ) → next n ≢ panic)
      → (index i bs >>= next) ≢ panic
  index-ne-panic i bs high rest = rw (index-byte_at i bs high) (rest _)

  pub checked_add-ne-panic :
      (a b : ℕ) (e : Error) (next : ℕ → Result B)
      → (next (a + b) ≢ panic)
      → (checked_add a b e >>= next) ≢ panic
  unfolding checked_add
  checked_add-ne-panic a b e next rest = elim (Bool-cases (ltb (a + b) (2 ^ 64))) [
    | inl fits ↦ rw fits rest
    | inr over ↦ rw over (λ h. cc)
  ]

  pub try_u32-ne-panic :
      (n : ℕ) (e : Error) (next : ℕ → Result B) → (next n ≢ panic) → (try_u32 n e >>= next) ≢ panic
  unfolding try_u32
  try_u32-ne-panic n e next rest = elim (Bool-cases (ltb n (2 ^ 32))) [
    | inl fits ↦ rw fits rest
    | inr over ↦ rw over (λ h. cc)
  ]

-- A decryption that fails is an error.
pub or_error-ne-panic {ℓ} :
    {A : Type ℓ} (o : Option A) (f : Option A → Result A)
    → f none ≢ panic
    → ((a : A) → f (some a) ≢ panic)
    → f o ≢ panic
or_error-ne-panic none f nothing some_of = nothing
or_error-ne-panic (some a) f nothing some_of = some_of a
