-- ===== src/Error/Codes.antt =====
-- The codes tell the kinds of error apart.
use cripto_endevs_comunity.Base.{◌≡◌, [], arith}
use cripto_endevs_comunity.Error.{Error, to_ffi_code}

-- The error with what it carries forgotten.
abbrev kind : Error → Error
kind (Error.base64 _) = Error.base64 []
kind (Error.version_no_soportada _) = Error.version_no_soportada 0
kind (Error.io _) = Error.io []
kind e = e

-- Two errors with one code are of one kind.
to_ffi_code-injective : (e f : Error) → to_ffi_code e ≡ to_ffi_code f → kind e ≡ kind f
unfolding to_ffi_code
to_ffi_code-injective e f h = ground arith
