-- ===== src/Texts/Display.antt =====
-- `Display` of the errors of src/error.rs, and the conversion of an input or output error.
use mathlib.Core.Option.{some-injective}
use cripto_endevs_comunity.Base.{
  ℕ, ◌<◌, ◌≡◌, refl, ap, sym, ◌∙◌, Option, none, some, List, [], ◌∷◌, ◌++◌, arith, list_eq,
  if◌then◌else◌,
}
use cripto_endevs_comunity.Error.{
  Error, base64, paquete_corrupto, version_no_soportada, autenticacion, utf8, cifrado,
  semilla_invalida, enlace_invalido, modo_invalido, repetido, fuera_de_orden, estado_sin_reanudar,
  tiempo_expirado_o_invalido, aad_demasiado_largo, integridad_contexto_corrupta,
  ffi_parametro_invalido, io,
}
use cripto_endevs_comunity.Texts.{
  strip_prefix, strip_prefix-append, decimal, of_decimal, of_decimal-decimal,
}
use cripto_endevs_comunity.Texts

-- `write!` of an error: the text of its arm.
unfoldable pub fmt : Error → List ℕ
unfolding decimal
fmt (base64 e) = Texts.utf8 "Error decodificando Base64: " ++ e
fmt paquete_corrupto = Texts.utf8 "Paquete o registro corrupto o demasiado corto"
fmt (version_no_soportada version) =
    Texts.utf8 "Versión de formato no soportada: " ++ decimal 3 version
fmt autenticacion = Texts.utf8 "Error de autenticación AEAD, clave incorrecta o paquete manipulado"
fmt utf8 = Texts.utf8 "El texto descifrado no es UTF-8 válido"
fmt cifrado = Texts.utf8 "Error crítico en el cifrado o límite de secuencia alcanzado"
fmt semilla_invalida = Texts.utf8 "La semilla debe contener 32 bytes de alta entropía"
fmt enlace_invalido = Texts.utf8 "Formato de enlace Nugget inválido o corrupto"
fmt modo_invalido = Texts.utf8 "Modo de operación inválido"
fmt repetido = Texts.utf8 "Paquete repetido (Replay detectado)"
fmt fuera_de_orden = Texts.utf8 "Paquete fuera de la ventana aceptada"
fmt estado_sin_reanudar = Texts.utf8 "Estado importado sin confirmación explícita de reanudación"
fmt tiempo_expirado_o_invalido =
    Texts.utf8 "El paquete está fuera de la ventana de tiempo permitida (TTL/Skew)"
fmt aad_demasiado_largo = Texts.utf8 "Los metadatos AAD o bloque superan el límite máximo permitido"
fmt integridad_contexto_corrupta =
    Texts.utf8
      "Fallo en el SHA-256 de integración: se detectaron paquetes perdidos o corrupción de cadena"
fmt ffi_parametro_invalido =
    Texts.utf8 "Parámetro FFI inválido (puntero nulo o capacidad de buffer insuficiente)"
fmt (io e) = Texts.utf8 "Error de entrada/salida (I/O) en almacenamiento: " ++ e

-- `From<std::io::Error>`: the error carries the text that the system's error displays.
pub from_io : (to_string : List ℕ) → Error
from_io to_string = io to_string

-- A reader of the texts, independent of the code: the fixed texts first, then the three that carry more.
fixed_errors : List Error
fixed_errors =
    paquete_corrupto ∷ autenticacion ∷ utf8 ∷ cifrado ∷ semilla_invalida ∷ enlace_invalido
    ∷ modo_invalido ∷ repetido ∷ fuera_de_orden ∷ estado_sin_reanudar ∷ tiempo_expirado_o_invalido
    ∷ aad_demasiado_largo ∷ integridad_contexto_corrupta ∷ ffi_parametro_invalido ∷ []

or_else : Option Error → Option Error → Option Error
or_else none other = other
or_else (some e) other = some e

carried : (List ℕ → Error) → Option (List ℕ) → Option Error
carried wrap none = none
carried wrap (some rest) = some (wrap rest)

find : List Error → List ℕ → Option Error
unfolding fmt or_else
find [] text = none
find (e ∷ es) text = or_else (if list_eq (fmt e) text then some e else none) (find es text)

read : List ℕ → Option Error
unfolding strip_prefix find carried or_else of_decimal fixed_errors
read text =
    or_else (carried base64 (strip_prefix (Texts.utf8 "Error decodificando Base64: ") text)) (
      or_else
        (carried io
          (strip_prefix (Texts.utf8 "Error de entrada/salida (I/O) en almacenamiento: ") text))
        (or_else
          (carried (λ digits. version_no_soportada (of_decimal 0 digits))
            (strip_prefix (Texts.utf8 "Versión de formato no soportada: ") text))
          (find fixed_errors text)))

-- The version in an error is a byte.
IsError : Error → Type 0
IsError (version_no_soportada version) = version < 256
IsError e = Unit

read-fmt : (e : Error) → IsError e → read (fmt e) ≡ some e
unfolding read IsError
read-fmt (base64 t) b = refl
read-fmt paquete_corrupto b = refl
read-fmt (version_no_soportada v) b =
    ap (λ (n : ℕ). some (version_no_soportada n)) (of_decimal-decimal 3 v (omega arith))
read-fmt autenticacion b = refl
read-fmt utf8 b = refl
read-fmt cifrado b = refl
read-fmt semilla_invalida b = refl
read-fmt enlace_invalido b = refl
read-fmt modo_invalido b = refl
read-fmt repetido b = refl
read-fmt fuera_de_orden b = refl
read-fmt estado_sin_reanudar b = refl
read-fmt tiempo_expirado_o_invalido b = refl
read-fmt aad_demasiado_largo b = refl
read-fmt integridad_contexto_corrupta b = refl
read-fmt ffi_parametro_invalido b = refl
read-fmt (io t) b = refl

-- Two errors with one text are one error, where the versions that they carry are bytes.
fmt-injective : (e f : Error) → IsError e → IsError f → fmt e ≡ fmt f → e ≡ f
fmt-injective e f of_e of_f same =
    some-injective e f (sym (read-fmt e of_e) ∙ ap read same ∙ read-fmt f of_f)
