-- ===== src/Error.antt =====
-- src/error.rs: the error values and their codes at the C boundary. A computation returns a value,
-- returns an error, or panics; a slice out of range and a failed `unwrap` are panics. A Rust text is
-- the list of its UTF-8 bytes.
mod Codes
use cripto_endevs_comunity.Base.{ℕ, ◌≡◌, refl, ◌⊎◌, inl, inr, List, Bool, true, false}

pub data Error : Type 0 where
  base64 : List ℕ → Error
  paquete_corrupto : Error
  version_no_soportada : ℕ → Error
  autenticacion utf8 cifrado semilla_invalida enlace_invalido modo_invalido : Error
  repetido fuera_de_orden estado_sin_reanudar tiempo_expirado_o_invalido : Error
  aad_demasiado_largo integridad_contexto_corrupta ffi_parametro_invalido : Error
  io : List ℕ → Error

pub data Result {ℓ} (A : Type ℓ) : Type ℓ where
  ok : A → Result A
  err : Error → Result A
  panic : Result A

-- The rest of a computation runs on the value; an error or a panic ends it.
infixl 5 ◌>>=◌ ◌>>◌
abbrev pub ◌>>=◌ {ℓ₁ ℓ₂} :
    {Value : Type ℓ₁} {Answer : Type ℓ₂} → Result Value → (Value → Result Answer) → Result Answer
panic >>= next = panic
err e >>= next = err e
ok value >>= next = next value

-- `if !test { return Err(e) }`
abbrev pub require : Bool → Error → Result (Unit {0})
require true e = ok tt
require false e = err e

-- `if test { return Err(e) }`
abbrev pub reject : Bool → Error → Result (Unit {0})
reject true e = err e
reject false e = ok tt

-- A step without a value.
abbrev pub ◌>>◌ {ℓ} : {Answer : Type ℓ} → Result (Unit {0}) → Result Answer → Result Answer
step >> rest = step >>= λ _. rest

-- An `i32` result code.
pub data ℤ : Type 0 where
  pos : ℕ → ℤ
  negsuc : ℕ → ℤ

-- `Error::to_ffi_code`: `negsuc n` is -(n + 1).
unfoldable pub to_ffi_code : Error → ℤ
to_ffi_code (base64 _) = negsuc 0
to_ffi_code paquete_corrupto = negsuc 1
to_ffi_code (version_no_soportada _) = negsuc 2
to_ffi_code autenticacion = negsuc 3
to_ffi_code utf8 = negsuc 4
to_ffi_code cifrado = negsuc 5
to_ffi_code semilla_invalida = negsuc 6
to_ffi_code enlace_invalido = negsuc 7
to_ffi_code modo_invalido = negsuc 8
to_ffi_code repetido = negsuc 9
to_ffi_code fuera_de_orden = negsuc 10
to_ffi_code estado_sin_reanudar = negsuc 11
to_ffi_code tiempo_expirado_o_invalido = negsuc 12
to_ffi_code aad_demasiado_largo = negsuc 13
to_ffi_code integridad_contexto_corrupta = negsuc 14
to_ffi_code ffi_parametro_invalido = negsuc 15
to_ffi_code (io _) = negsuc 16

-- To split on a computed result and keep the equation.
pub Result-cases {ℓ} :
    {A : Type ℓ} (r : Result A)
    → ((a : A) × (r ≡ ok a)) ⊎ (((e : Error) × (r ≡ err e)) ⊎ (r ≡ panic))
Result-cases (ok a) = inl (a, refl)
Result-cases (err e) = inr (inl (e, refl))
Result-cases panic = inr (inr refl)

pub ok-injective {ℓ} : {A : Type ℓ} {a b : A} → ok a ≡ ok b → a ≡ b
ok-injective h = cc
